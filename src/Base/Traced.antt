-- ===== src/Base/Traced.antt =====
-- Fallible code that leaves a trace of what it does to the outside, the last action first.
use mathlib.Core.List.{List}
use contain.Base.Results.{Result, ok, err}

abbrev pub Effect : Type 0 → Type 0 → Type 0 → Type 0
Effect Action E A = List Action → Result E A × List Action

module _ {Action E : Type 0} where
  abbrev pub pure : {A : Type 0} → A → Effect Action E A
  pure a h = (ok a, h)

  abbrev pub fail : {A : Type 0} → E → Effect Action E A
  fail e h = (err e, h)

  abbrev pub lift : {A : Type 0} → Result E A → Effect Action E A
  lift r h = (r, h)

  abbrev pub then_do :
      {A B : Type 0} → Result E A → List Action → (A → Effect Action E B) → Result E B × List Action
  then_do (ok a) h f = f a h
  then_do (err e) h f = (err e, h)

  infixl 5 ◌>>>=◌
  abbrev pub ◌>>>=◌ :
      {A B : Type 0} → Effect Action E A → (A → Effect Action E B) → Effect Action E B
  (m >>>= f) h = then_do (m h).0 (m h).1 f

  -- What holds of a trace before and after.
  module _ (P : List Action → Type 0) where
    abbrev pub Keeps : {A : Type 0} → Effect Action E A → Type 0
    Keeps m = (h : List Action) → P h → P (m h).1

    pub Keeps->>>= :
        {A B : Type 0} (m : Effect Action E A) (f : A → Effect Action E B)
        → Keeps m
        → ((a : A) → Keeps (f a))
        → Keeps (m >>>= f)
    Keeps->>>= m f hm hf h p = after (m h).0 (m h).1 (hm h p)
      where
        after : (r : Result E _) (h' : List Action) → P h' → P (then_do r h' f).1
        after (ok a) h' p' = hf a h' p'
        after (err e) h' p' = p'

  -- What holds of the trace after, for what held before.
  abbrev pub Leads :
      {A : Type 0} → (List Action → Type 0) → (List Action → Type 0) → Effect Action E A → Type 0
  Leads P Q m = (h : List Action) → P h → Q (m h).1

  pub Leads->>>= :
      {A B : Type 0} (P R Q : List Action → Type 0) (m : Effect Action E A)
      (f : A → Effect Action E B)
      → ((h : List Action) → R h → Q h)
      → Leads P R m
      → ((a : A) → Leads R Q (f a))
      → Leads P Q (m >>>= f)
  Leads->>>= P R Q m f weaker hm hf h p = after (m h).0 (m h).1 (hm h p)
    where
      after : (r : Result E _) (h' : List Action) → R h' → Q (then_do r h' f).1
      after (ok a) h' p' = hf a h' p'
      after (err e) h' p' = weaker h' p'
