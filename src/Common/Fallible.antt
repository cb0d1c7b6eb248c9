-- ===== src/Common/Fallible.antt =====
-- The outcome of code that may throw: a value, or one of the exceptions that the program raises.

pub data Exception : Type 0 where
  deserialization_error socket_shutdown system_error : Exception
  invalid_handshake no_handshake socket_error queue_closed runtime_error : Exception

pub data Result {ℓ} (A : Type ℓ) : Type ℓ where
  ok : A → Result A
  err : Exception → Result A

infixl 5 ◌>>=◌ ◌>>◌
abbrev pub ◌>>=◌ {ℓ κ} : {A : Type ℓ} {B : Type κ} → Result A → (A → Result B) → Result B
ok a >>= f = f a
err e >>= f = err e

abbrev pub ◌>>◌ {ℓ κ} : {A : Type ℓ} {B : Type κ} → Result A → Result B → Result B
m >> k = m >>= λ _. k
