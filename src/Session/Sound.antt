-- ===== src/Session/Sound.antt =====
-- Relations between the session before and after an action, one rule for each way to build an
-- action. A relation that is reflexive and transitive holds of a method if it holds of its parts.
use sidp_client.Base.{◌≡◌, refl, Bool, true, false, if◌then◌else◌}
use sidp_client.Session.State.{skip, gets, ◌>>=◌, Session, M, pure}

pub record IsPreorder {W : Type 0} (R : Session W → Session W → Type 0) : Type 0 where
  pub rfl : (s : Session W) → R s s
  pub trans : (s t u : Session W) → R s t → R t u → R s u

pub record Sound {W A : Type 0} (R : Session W → Session W → Type 0) (m : M W A) : Type 0 where
  pub at : (s : Session W) → R s (m s).1

module _ {W A : Type 0} {R : Session W → Session W → Type 0} where
  pub Sound-pure : IsPreorder R → (a : A) → Sound R (pure a)
  unfolding pure
  Sound-pure pre a = record { at = λ s. pre.rfl s }

  pub Sound-gets : IsPreorder R → (f : Session W → A) → Sound R (gets f)
  unfolding gets
  Sound-gets pre f = record { at = λ s. pre.rfl s }

  pub Sound-if : (b : Bool) (m n : M W A) → Sound R m → Sound R n → Sound R (if b then m else n)
  Sound-if true m n km kn = km
  Sound-if false m n km kn = kn

  -- The branches may use the test.
  pub Sound-if' :
      (b : Bool) (m n : M W A)
      → (b ≡ true → Sound R m)
      → (b ≡ false → Sound R n)
      → Sound R (if b then m else n)
  Sound-if' true m n km kn = km refl
  Sound-if' false m n km kn = kn refl

module _ {W A : Type 0} (R : Session W → Session W → Type 0) where
  -- A test from one session on.
  pub if-at :
      (b : Bool) (m n : M W A) (s : Session W)
      → R s (m s).1
      → (b ≡ false → R s (n s).1)
      → R s ((if b then m else n) s).1
  if-at true m n s km kn = km
  if-at false m n s km kn = kn refl

module _ {W : Type 0} {R : Session W → Session W → Type 0} where
  pub Sound-skip : IsPreorder R → Sound R skip
  unfolding skip
  Sound-skip pre = record { at = λ s. pre.rfl s }

module _ {W A B : Type 0} {R : Session W → Session W → Type 0} where
  pub Sound-bind :
      IsPreorder R
      → (m : M W A) (f : A → M W B) → Sound R m
      → ((a : A) → Sound R (f a))
      → Sound R (m >>= f)
  unfolding ◌>>=◌
  Sound-bind pre m f km kf = record {
    at = λ s. pre.trans s (m s).1 ((m >>= f) s).1 (km.at s) ((kf (m s).0).at (m s).1);
  }

-- What holds of the result and of the session after a test.
pub if-ends :
    {W A : Type 0} (Q : A → Session W → Type 0) (b : Bool) (m n : M W A) (s : Session W)
    → (b ≡ true → Q (m s).0 (m s).1)
    → (b ≡ false → Q (n s).0 (n s).1)
    → Q ((if b then m else n) s).0 ((if b then m else n) s).1
if-ends Q true m n s km kn = km refl
if-ends Q false m n s km kn = kn refl

pub ruleset sound_rules = (Sound-pure, Sound-gets, Sound-skip, Sound-if, Sound-bind)
