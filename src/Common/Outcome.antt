-- ===== src/Common/Outcome.antt =====
-- Exceptions as values. `Result` is for code that changes no state; `Outcome` keeps the state that
-- a `throw` or a failed `assert` leaves behind.

pub data Error : Type 0 where
  -- a failed `assert`
  assertion : Error
  -- `std::out_of_range`, or an index behind the end of a vector
  out_of_range : Error
  -- `std::runtime_error`, by what its message says
  seek_failed invalid_checksum invalid_page_type duplicate_key key_not_found : Error
  payload_too_small bad_variant_access : Error
  null_violation unknown_type no_such_page table_exists invalid_argument : Error
  io_failed past_last_page no_segment : Error
  -- not of the source: the fuel of a loop has run out; a thread waits for a latch
  out_of_fuel waiting : Error

pub data Result {ℓ} (A : Type ℓ) : Type ℓ where
  err : Error → Result A
  ok : A → Result A

pub data Outcome {ℓ κ} (S : Type ℓ) (A : Type κ) : Type (ℓ ⊔ κ) where
  done : A → S → Outcome S A
  thrown : Error → S → Outcome S A

infixl 5 ◌>>=◌
abbrev pub ◌>>=◌ {ℓ} : {A B : Type ℓ} → Result A → (A → Result B) → Result B
err reason >>= next = err reason
ok result >>= next = next result
