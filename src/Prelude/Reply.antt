-- ===== src/Prelude/Reply.antt =====
-- The answer to a call that may fail: a value, or an error's text.
use kubeagent.Prelude.Strings.{Text}

pub data Reply (A : Type 0) : Type 0 where
  got : A → Reply A
  failed : Text → Reply A
