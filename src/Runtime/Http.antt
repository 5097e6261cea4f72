-- ===== src/Runtime/Http.antt =====
-- What the HTTP client does to a request of a turn whose cancel token is set: `CheckCancel`, which
-- `StreamRequest` calls before anything else (src/core/beast_http_client.cpp). A token that is set is
-- not reset while the turn runs. The checks further on, at which a token may be set later, are part of
-- what a reply is.
use pu_cli.Base.{ℕ, zero, suc, Bool, true, false, ◌&&◌, ◌||◌, []}
use pu_cli.Runtime.Data.{Reply, threw, World}

-- Whether one of the first reads found the token set.
abbrev pub was_set : (ℕ → Bool) → ℕ → Bool
was_set cancel zero = false
was_set cancel (suc n) = cancel n || was_set cancel n

module _ {J Amount : Type 0} where
  -- `CheckCancel` in front of a request.
  abbrev pub check_cancel : Bool → Reply J Amount → Reply J Amount
  check_cancel true reply = threw [] "Request cancelled"
  check_cancel false reply = reply

  -- A world in which the provider is reached over HTTP.
  abbrev pub over_http : World J Amount → World J Amount
  over_http world = record world {
    reply = λ round reads.
        check_cancel (world.has_token && was_set world.cancel reads) (world.reply round reads);
  }
