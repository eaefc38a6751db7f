-- ===== src/Base/Failures.antt =====
-- The error codes of src/ErrorCode.hpp, and the result of an operation that may throw one of them.
use mathlib.Core.Path.{◌≡◌, refl}
use mathlib.Core.Bool.{Bool, true, false}

pub data ErrorCode : Type 0 where
  success bad_param bad_param_db_uri corrupt errno end_of_file file_exists : ErrorCode
  file_not_found no_mem not_init not_ready out_of_bounds too_long truncated : ErrorCode
  unsupported no_access failure failure_metadata_corrupted metadata_corrupted : ErrorCode
  failure_db_bulk_write : ErrorCode

-- `no_fuel` belongs to the model only: a loop was given fewer rounds than it makes.
pub data Outcome {ℓ} (A : Type ℓ) : Type ℓ where
  ok : A → Outcome A
  throws : ErrorCode → Outcome A
  no_fuel : Outcome A

infixl 5 ◌>>=◌ ◌>>◌
abbrev pub ◌>>=◌ {ℓ₁ ℓ₂} : {S : Type ℓ₁} {T : Type ℓ₂} → Outcome S → (S → Outcome T) → Outcome T
no_fuel >>= next = no_fuel
throws code >>= next = throws code
ok s >>= next = next s

-- `if (b) throw OperationFailed(e)`
abbrev pub throw_if : Bool → ErrorCode → Outcome (Unit {0})
throw_if b code = elim b [ true ↦ throws code | false ↦ ok tt ]

abbrev pub ◌>>◌ {ℓ₁} : {T : Type ℓ₁} → Outcome (Unit {0}) → Outcome T → Outcome T
check >> rest = check >>= λ done. rest

-- A bind that succeeds has two parts that succeed.
pub >>=-eq-ok {ℓ₁ ℓ₂} :
    {S : Type ℓ₁} {T : Type ℓ₂} (first : Outcome S) (next : S → Outcome T) {t : T}
    → (first >>= next) ≡ ok t
    → (s : S) × (first ≡ ok s) × (next s ≡ ok t)
>>=-eq-ok no_fuel next h = cc
>>=-eq-ok (throws code) next h = cc
>>=-eq-ok (ok s) next h = (s, refl, h)

pub ok-injective {ℓ} : {A : Type ℓ} {a b : A} → ok a ≡ ok b → a ≡ b
ok-injective h = cc

pub throws-ne-ok {ℓ} : {A : Type ℓ} {a : A} {e : ErrorCode} → throws e ≡ ok a → ⊥
throws-ne-ok h = cc

pub no_fuel-ne-ok {ℓ} : {A : Type ℓ} {a : A} → no_fuel ≡ ok a → ⊥
no_fuel-ne-ok h = cc
