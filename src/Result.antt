-- ===== src/Result.antt =====
-- What a C++ computation ends with: a value, or the reason why the process cannot go on. The
-- exceptions are those of std::stoi and its relatives and the one that defines.cpp throws; the other
-- faults are a failed assert, a call of exit, and undefined behaviour, which is never given a value here.
use mathlib.Core.Path.{subst}
use p2p_file_sharing_system.Prelude.{Bool, true, false, Option, none, some, ◌≡◌, refl}

pub data Fault : Type 0 where
  invalid_argument number_out_of_range runtime_error : Fault
  index_out_of_range signed_overflow buffer_overflow uninitialised null_pointer assert_failed
        exited :
      Fault

pub data Result {ℓ} (A : Type ℓ) : Type ℓ where
  ok : A → Result A
  fault : Fault → Result A

infixl 5 ◌>>=◌ ◌>>◌
abbrev pub ◌>>=◌ {ℓ κ} : {A : Type ℓ} {B : Type κ} → Result A → (A → Result B) → Result B
ok a >>= f = f a
fault e >>= f = fault e

abbrev pub ◌>>◌ {ℓ} : {B : Type ℓ} → Result (Unit {0}) → Result B → Result B
m >> k = m >>= λ _. k

abbrev pub guard : Bool → Fault → Result (Unit {0})
guard true e = ok tt
guard false e = fault e

-- The value of an option, or a fault where there is none.
abbrev pub or_fault {ℓ} : {A : Type ℓ} → Option A → Fault → Result A
or_fault none e = fault e
or_fault (some a) e = ok a

pub >>=-assoc {ℓ κ μ} :
    {A : Type ℓ} {B : Type κ} {C : Type μ} (m : Result A) (f : A → Result B) (g : B → Result C)
    → (m >>= λ a. f a >>= g) ≡ (m >>= f >>= g)
>>=-assoc (ok a) f g = refl
>>=-assoc (fault e) f g = refl

-- What holds of the value, if there is one.
abbrev pub OnOk {ℓ κ} : {A : Type ℓ} → (A → Type κ) → Result A → Type κ
OnOk P (ok a) = P a
OnOk P (fault e) = Unit

module _ {ℓ κ μ} {A : Type ℓ} {B : Type κ} (P : B → Type μ) where
  pub OnOk->>= : (m : Result A) (f : A → Result B) → ((a : A) → OnOk P (f a)) → OnOk P (m >>= f)
  OnOk->>= (ok a) f h = h a
  OnOk->>= (fault e) f h = tt

module _ {ℓ κ} {A : Type ℓ} (P : A → Type κ) where
  pub OnOk-map {κ'} : (Q : A → Type κ') (m : Result A) → ((a : A) → Q a → P a) → OnOk Q m → OnOk P m
  OnOk-map Q (ok a) f h = f a h
  OnOk-map Q (fault e) f h = tt

  pub OnOk_use : (m : Result A) {a : A} → m ≡ ok a → OnOk P m → P a
  OnOk_use m e h = subst (OnOk P) e h
