-- ===== src/Ocipush/Trace/Run.antt =====
-- Rules for runs of methods: `Run T R s (m s) Q` says that the state that `m` leaves is related to
-- `s`, whatever the outcome, that a successful outcome meets `Q`, and that under the condition `T`
-- the method comes to an end.
use mathlib.Core.Path.{subst}
use contain.Base.{◌≡◌, ◌≢◌, refl, Bool, true, false, Option, none, some, if◌then◌else◌}
use contain.Ocipush.World.{Error, Result, ok, err, out_of_fuel, Sys, Exec}
use contain.Ocipush.World.{continue, give, wrap_result, from_option, guard}

pub record IsPreorder (R : Sys → Sys → Type 0) : Type 0 where
  pub reflexive : (s : Sys) → R s s
  pub transitive : (s t u : Sys) → R s t → R t u → R s u

pub record Run {A : Type 0} (T : Type 0) (R : Sys → Sys → Type 0) (s : Sys) (out : Result A × Sys)
    (Q : A → Sys → Type 0) : Type 0 where
  pub related : R s out.1
  pub returns : (a : A) → out.0 ≡ ok a → Q a out.1
  pub ends : T → out.0 ≢ out_of_fuel

-- The condition of a method that always ends.
abbrev pub Always : Type 0
Always = Unit {0}

pub ok-injective : {A : Type 0} (a b : A) → ok a ≡ ok b → a ≡ b
ok-injective a b e = cc

module _ {A : Type 0} {T : Type 0} {R : Sys → Sys → Type 0} {Q : A → Sys → Type 0} where
  pub Run-weaken :
      {s : Sys} {out : Result A × Sys} {P : A → Sys → Type 0}
      → ((a : A) (t : Sys) → P a t → Q a t)
      → Run T R s out P
      → Run T R s out Q
  Run-weaken {out} weaker r = record {
    related = r.related;
    returns = λ a e. weaker a out.1 (r.returns a e);
    ends = r.ends;
  }

  -- A finer relation, with what follows from it on success.
  pub Run-coarsen :
      {R' : Sys → Sys → Type 0} {s : Sys} {out : Result A × Sys} {P : A → Sys → Type 0}
      → ((t : Sys) → R' s t → R s t)
      → ((a : A) (t : Sys) → R' s t → P a t → Q a t)
      → Run T R' s out P
      → Run T R s out Q
  Run-coarsen {out} coarser weaker r = record {
    related = coarser out.1 r.related;
    returns = λ a e. weaker a out.1 r.related (r.returns a e);
    ends = r.ends;
  }

  pub Run-step : {s t : Sys} (a : A) → R s t → Q a t → Run T R s (ok a, t) Q
  Run-step {t} a r q = record {
    related = r;
    returns = λ b e. subst (λ x. Q x t) (ok-injective a b e) q;
    ends = λ _ e. absurd (cc);
  }

  pub Run-fail : {s t : Sys} (e : Error) → R s t → Run T R s (err e, t) Q
  Run-fail e r = record { related = r; returns = λ b p. absurd (cc); ends = λ _ p. absurd (cc) }

  pub Run-stuck : {s t : Sys} → R s t → ¬ T → Run T R s (out_of_fuel, t) Q
  Run-stuck r never = record {
    related = r;
    returns = λ b p. absurd (cc);
    ends = λ h. absurd (never h);
  }

  -- With what is known of the outcome from elsewhere.
  pub Run-also :
      {s : Sys} {out : Result A × Sys} {P : A → Type 0}
      → ((a : A) → out.0 ≡ ok a → P a)
      → Run T R s out Q
      → Run T R s out (λ a t. P a × Q a t)
  Run-also known r = record {
    related = r.related;
    returns = λ a e. (known a e, r.returns a e);
    ends = r.ends;
  }

  -- Under a condition that implies the one at hand.
  pub Run-assume :
      {T' : Type 0} {s : Sys} {out : Result A × Sys} → (T' → T) → Run T R s out Q → Run T' R s out Q
  Run-assume implies r = record {
    related = r.related;
    returns = r.returns;
    ends = λ h. r.ends (implies h);
  }

  pub Run-if :
      {s : Sys} (b : Bool) (m n : Exec A)
      → (b ≡ true → Run T R s (m s) Q)
      → (b ≡ false → Run T R s (n s) Q)
      → Run T R s ((if b then m else n) s) Q
  Run-if true m n rm rn = rm refl
  Run-if false m n rm rn = rn refl

  -- The same for a test on the outcomes.
  pub Run-cond :
      {s : Sys} (b : Bool) (o o' : Result A × Sys)
      → (b ≡ true → Run T R s o Q)
      → (b ≡ false → Run T R s o' Q)
      → Run T R s (if b then o else o') Q
  Run-cond true o o' r r' = r refl
  Run-cond false o o' r r' = r' refl

  pub Run-wrap_err :
      {s : Sys} (f : Error → Error) (o : Result A × Sys)
      → Run T R s o Q
      → Run T R s (wrap_result f o.0, o.1) Q
  Run-wrap_err f (ok a, t) h = h
  Run-wrap_err f (err e, t) h = Run-fail (f e) h.related
  Run-wrap_err f (out_of_fuel, t) h = Run-stuck h.related (λ x. h.ends x refl)

module _ {T : Type 0} {R : Sys → Sys → Type 0} (pre : IsPreorder R) where
  pub Run-bind :
      {A B : Type 0} {s : Sys} {P : A → Sys → Type 0} {Q : B → Sys → Type 0} (o : Result A × Sys)
      (f : A → Exec B)
      → Run T R s o P
      → ((a : A) (t : Sys) → R s t → P a t → Run T R t (f a t) Q)
      → Run T R s (continue o.0 f o.1) Q
  Run-bind {s} (ok a, t) f h rf =
      let next = rf a t h.related (h.returns a refl) in
      record {
        related = pre.transitive s t (f a t).1 h.related next.related;
        returns = next.returns;
        ends = next.ends;
      }
  Run-bind (err e, t) f h rf = Run-fail e h.related
  Run-bind (out_of_fuel, t) f h rf = Run-stuck h.related (λ x. h.ends x refl)

  pub Run-guard : {s : Sys} (b : Bool) (e : Error) → Run T R s (guard b e s) (λ _ t. b ≡ true)
  Run-guard {s} true e = Run-step tt (pre.reflexive s) refl
  Run-guard {s} false e = Run-fail e (pre.reflexive s)

  pub Run-from_option :
      {A : Type 0} {s : Sys} (e : Error) (o : Option A)
      → Run T R s (from_option e o s) (λ a t. o ≡ some a)
  Run-from_option {s} e none = Run-fail e (pre.reflexive s)
  Run-from_option {s} e (some a) = Run-step a (pre.reflexive s) refl

  -- Nothing is known of the outcome of a pure computation but its value.
  pub Run-give :
      {A : Type 0} {s : Sys} (r : Result A)
      → (T → r ≢ out_of_fuel)
      → Run T R s (give r s) (λ a t. r ≡ ok a)
  Run-give {s} r finite = record { related = pre.reflexive s; returns = λ a e. e; ends = finite }

  -- What follows a first part that has returned: its state is related, and the rest runs from it.
  pub Run-after :
      {A : Type 0} {s t : Sys} {out : Result A × Sys} {Q : A → Sys → Type 0}
      → R s t
      → Run T R t out Q
      → Run T R s out Q
  Run-after {s} {t} {out} k r = record {
    related = pre.transitive s t out.1 k r.related;
    returns = r.returns;
    ends = r.ends;
  }

-- Nothing is asked of the states.
abbrev pub Any : Sys → Sys → Type 0
Any s t = Unit {0}

pub Any-IsPreorder : IsPreorder Any
Any-IsPreorder = record { reflexive = λ _. tt; transitive = λ _ _ _ _ _. tt }

pub Run-Any : {A : Type 0} {s : Sys} (out : Result A × Sys) → Run ⊥ Any s out (λ _ _. Unit {0})
Run-Any out = record { related = tt; returns = λ _ _. tt; ends = λ x. absurd x }
