-- ===== src/Adapters/Http.antt =====
-- What a call over net/http comes back with.
use valaf.Common.{ℕ, String}

pub data HttpAnswer : Type 0 where
  unanswered : String → HttpAnswer  -- the request could not be made or was not answered
  answered : ℕ → String → HttpAnswer  -- a status code and a body
