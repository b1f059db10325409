-- ===== src/Ocipush/Direct/Numbers.antt =====
-- The list of parts that is committed (directpush.go).
use contain.Base.{ℕ, zero, suc, ◌+◌, ◌%◌, ◌<◌, ◌≡◌, ◌≢◌, refl, ◌∙◌, ap, String}
use contain.Base.{
  Bool, true, false, ◌&&◌, ◌||◌, &&_parts, &&_both, Option, none, some, some-injective,
}
use contain.Base.{List, [], ◌∷◌, map, length, get_elem?, set, length-set, replicate, arith, ◌==◌}
use contain.Base.{any}
use contain.Ocipush.World.{
  Bytes, Descriptor, Env, Sys, Part, Error, Result, ok, err, out_of_fuel, Event,
}
use contain.Ocipush.World.{picked}
use contain.Ocipush.Client.{RegClient}
use contain.Ocipush.Direct.{Session, remove_at, store_part, first_error, finish_parts, pick}
use contain.Ocipush.Direct.{upload_part, run_parts, ext_upload_parts, number_from, blank_part}
use contain.Ocipush.World.{plain}
use contain.Ocipush.Trace.Direct.{Run-upload_part}
use contain.Ocipush.Trace.Run.{Always, IsPreorder, Run, Run-weaken, Run-step, Run-fail, Run-bind}
use contain.Ocipush.Trace.Run.{Run-after, Run-from_option}
use contain.Ocipush.Trace.Client.{is_quiet, Kept, Kept-IsPreorder, Kept-record_event}

-- The numbers from one on.
abbrev pub count_from : ℕ → ℕ → List ℕ
count_from i zero = []
count_from i (suc n) = i ∷ count_from (i + 1) n

abbrev waits : ℕ → List (ℕ × String) → Bool
waits i todo = any (λ t. t.0 == i) todo

-- Each slot holds its number, or its part is still to be uploaded.
self_or : (i : ℕ) (b : Bool) → (i + 1 == i + 1 || b) ≡ true
self_or i b = ground arith

covered : ℕ → List Part → List (ℕ × String) → Bool
covered i [] todo = true
covered i (p ∷ ps) todo = (p.number == i + 1 || waits i todo) && covered (i + 1) ps todo

waits-remove_at :
    (i k j : ℕ) (url : String) (todo : List (ℕ × String))
    → get_elem? todo k ≡ some (i, url)
    → j ≢ i
    → waits j todo ≡ true
    → waits j (remove_at k todo) ≡ true
unfolding remove_at
waits-remove_at i k j url [] e ne h = h
waits-remove_at i zero j url (t ∷ ts) e ne h =
    let same : t.0 ≡ i = ap (λ (x : ℕ × String). x.0) (some-injective t (i, url) e) in ground arith
waits-remove_at i (suc k) j url (t ∷ ts) e ne h = ground (arith, waits-remove_at i k j url ts e ne)

length-remove_at :
    (k : ℕ) (t : ℕ × String) (todo : List (ℕ × String))
    → get_elem? todo k ≡ some t
    → length todo ≡ suc (length (remove_at k todo))
unfolding remove_at
length-remove_at k t [] e = absurd (cc)
length-remove_at zero t (x ∷ xs) e = refl
length-remove_at (suc k) t (x ∷ xs) e = ap suc (length-remove_at k t xs e)

-- The slots behind a part that is uploaded do not wait for it.
covered-remove_at :
    (b i k : ℕ) (url : String) (ps : List Part) (todo : List (ℕ × String))
    → get_elem? todo k ≡ some (i, url)
    → i < b
    → covered b ps todo ≡ true
    → covered b ps (remove_at k todo) ≡ true
unfolding covered
covered-remove_at b i k url [] todo e lt h = refl
covered-remove_at b i k url (p ∷ ps) todo e lt h =
    let parts = &&_parts (p.number == b + 1 || waits b todo) (covered (b + 1) ps todo) h in
    &&_both _ _ (or_waits (p.number == b + 1) parts.0)
      (covered-remove_at (b + 1) i k url ps todo e (omega arith) parts.1)
  where
    or_waits : (t : Bool) → (t || waits b todo) ≡ true → (t || waits b (remove_at k todo)) ≡ true
    or_waits true h = refl
    or_waits false h = waits-remove_at i k b url todo e (λ same. absurd (omega (arith, same))) h

-- Slot `i + j` gets its part.
covered-set :
    (i j k t : ℕ) (url : String) (p : Part) (ps : List Part) (todo : List (ℕ × String))
    → get_elem? todo k ≡ some (t, url)
    → t ≡ i + j
    → p.number ≡ t + 1
    → covered i ps todo ≡ true
    → covered i (set ps j p) (remove_at k todo) ≡ true
unfolding covered
covered-set i j k t url p [] todo e at n h = refl
covered-set i zero k t url p (q ∷ ps) todo e at n h =
    let parts = &&_parts (q.number == i + 1 || waits i todo) (covered (i + 1) ps todo) h in
    let numbered : p.number ≡ i + 1 = omega (arith, n, at) in
    rw numbered (
      &&_both _ _ (self_or i (waits i (remove_at k todo)))
        (covered-remove_at (i + 1) t k url ps todo e (omega (arith, at)) parts.1))
covered-set i (suc j) k t url p (q ∷ ps) todo e at n h =
    let parts = &&_parts (q.number == i + 1 || waits i todo) (covered (i + 1) ps todo) h in
    &&_both _ _ (or_waits (q.number == i + 1) parts.0)
      (covered-set (i + 1) j k t url p ps todo e (omega (arith, at)) n parts.1)
  where
    or_waits : (b : Bool) → (b || waits i todo) ≡ true → (b || waits i (remove_at k todo)) ≡ true
    or_waits true h = refl
    or_waits false h = waits-remove_at t k i url todo e (λ same. absurd (omega (arith, same, at))) h

covered-numbers :
    (i : ℕ) (ps : List Part)
    → covered i ps [] ≡ true
    → map (λ p. p.number) ps ≡ count_from (i + 1) (length ps)
unfolding covered
covered-numbers i [] h = refl
covered-numbers i (p ∷ ps) h =
    let parts = &&_parts (p.number == i + 1 || false) (covered (i + 1) ps []) h in
    let here : p.number ≡ i + 1 = ground arith in rw (here, covered-numbers (i + 1) ps parts.1)

covered-cons :
    (i : ℕ) (ps : List Part) (t : ℕ × String) (todo : List (ℕ × String))
    → covered i ps todo ≡ true
    → covered i ps (t ∷ todo) ≡ true
unfolding covered
covered-cons i [] t todo h = refl
covered-cons i (p ∷ ps) t todo h = ground (arith, covered-cons (i + 1) ps t todo)

covered-start :
    (i : ℕ) (urls : List String)
    → covered i (replicate (length urls) blank_part) (number_from i urls) ≡ true
unfolding covered
covered-start i [] = refl
covered-start i (u ∷ us) = &&_both _ _ (start_waits i u us) (
    covered-cons (i + 1) (replicate (length us) blank_part) (i, u) (number_from (i + 1) us)
      (covered-start (i + 1) us))
  where
    start_waits :
        (i : ℕ) (u : String) (us : List String)
        → (0 == i + 1 || waits i (number_from i (u ∷ us))) ≡ true
    start_waits i u us = ground arith

length-store_part :
    (i : ℕ) (r : Result Part) (parts : List Part) → length (store_part i r parts) ≡ length parts
unfolding store_part
length-store_part i (ok p) parts = length-set parts i p
length-store_part i (err e) parts = refl
length-store_part i out_of_fuel parts = refl

-- While no part has failed, each slot is filled or waits.
covered-store_part :
    (k i : ℕ) (url : String) (failed : Option Error) (r : Result Part) (parts : List Part)
    (todo : List (ℕ × String))
    → get_elem? todo k ≡ some (i, url)
    → ((p : Part) → r ≡ ok p → p.number ≡ i + 1)
    → (failed ≡ none → covered 0 parts todo ≡ true)
    → first_error failed r ≡ none
    → covered 0 (store_part i r parts) (remove_at k todo) ≡ true
unfolding store_part first_error
covered-store_part k i url (some e) r parts todo at n inv h = absurd (cc)
covered-store_part k i url none (ok p) parts todo at n inv h =
    covered-set 0 i k i url p parts todo at (omega arith) (n p refl) (inv refl)
covered-store_part k i url none (err e) parts todo at n inv h = absurd (cc)
covered-store_part k i url none out_of_fuel parts todo at n inv h = absurd (cc)

module _ (env : Env) (c : RegClient) (session : Session) (d : Descriptor) (content : Bytes) where
  abbrev any_rule : Event → List Event → Bool
  any_rule e h = true

  allowed : (e : Event) (h : List Event) → is_quiet e ≡ true → any_rule e h ≡ true
  allowed e h q = refl

  abbrev K : Sys → Sys → Type 0
  K = Kept env c any_rule

  abbrev pre : IsPreorder K
  pre = Kept-IsPreorder env c any_rule

  Run-finish :
      (s : Sys) (failed : Option Error) (parts : List Part)
      → (failed ≡ none → covered 0 parts [] ≡ true)
      → Run Always K s
          (finish_parts failed parts s)
          (λ out _. map (λ p. p.number) out ≡ count_from 1 (length parts))
  unfolding finish_parts
  Run-finish s none parts inv =
      Run-step parts (pre.reflexive s) (covered-numbers 0 parts (inv refl))
  Run-finish s (some e) parts inv = Run-fail e (pre.reflexive s)

  Run-numbered :
      (n : ℕ) (s : Sys) (todo : List (ℕ × String)) (parts : List Part) (failed : Option Error)
      → length todo ≡ n
      → (failed ≡ none → covered 0 parts todo ≡ true)
      → Run Always K s
          (run_parts env n c session d content todo parts failed s)
          (λ out _. map (λ p. p.number) out ≡ count_from 1 (length parts))
  unfolding run_parts pick
  Run-numbered zero s [] parts failed same inv = Run-finish s failed parts inv
  Run-numbered zero s (t ∷ ts) parts failed same inv = absurd (omega arith)
  Run-numbered (suc n) s todo parts failed same inv =
      let k = env.choose s.history % length todo in
      Run-after pre (Kept-record_event env c any_rule (picked (env.choose s.history)) s refl) (
        Run-bind pre _ _ (Run-from_option pre (plain "no part") (get_elem? todo k)) λ t u _ at.
          let out = upload_part env c session d content t.0 t.1 u in
          let r =
            Run-upload_part env c any_rule allowed u session d content t.0 t.1
              (λ _ _ _ _ _ _. refl) in
          Run-after pre r.related (
            Run-weaken
              (λ ps _ numbered. numbered ∙ ap (count_from 1) (length-store_part t.0 out.0 parts))
              (Run-numbered n out.1 (remove_at k todo) (store_part t.0 out.0 parts)
                (first_error failed out.0) (omega (arith, length-remove_at k t todo at))
                (covered-store_part k t.0 t.1 failed out.0 parts todo at r.returns inv))))

length-replicate : (n : ℕ) (p : Part) → length (replicate n p) ≡ n
length-replicate zero p = refl
length-replicate (suc n) p = ap suc (length-replicate n p)

length-number_from : (i : ℕ) (urls : List String) → length (number_from i urls) ≡ length urls
length-number_from i [] = refl
length-number_from i (u ∷ us) = ap suc (length-number_from (i + 1) us)

-- When the upload of the parts succeeds, in whatever order they completed, the list for the commit
-- has one entry for each address of the session, numbered from 1 in order.
pub ext_upload_parts-numbered :
    (env : Env) (c : RegClient) (session : Session) (d : Descriptor) (content : Bytes) (s : Sys)
    (parts : List Part)
    → (ext_upload_parts env c session d content s).0 ≡ ok parts
    → map (λ p. p.number) parts ≡ count_from 1 (length session.doc.urls)
unfolding ext_upload_parts
ext_upload_parts-numbered env c session d content s parts done =
    let urls = session.doc.urls in
    (Run-numbered env c session d content (length urls) s (number_from 0 urls)
        (replicate (length urls) blank_part) none (length-number_from 0 urls)
        (λ _. covered-start 0 urls)).returns
      parts done
    ∙ ap (count_from 1) (length-replicate (length urls) blank_part)
