-- ===== src/Appender/Results.antt =====
-- What an append that succeeds reports (appender_remote.go, appender_delta.go).
use contain.Base.{
  sym, ap, ◌∙◌, zero, true, ℕ, suc, ◌-◌, ◌≡◌, refl, String, Bool, false, List, [], ◌∷◌, map, drop,
  leb, arith, Result, ok, err, then_do, lift, ◌>>>=◌, Option, none, some, or_err, Bool-cases, inl,
  inr, if◌then◌else◌, Holds, Holds->>=, Holds-of, length,
}
use mathlib.Core.Path.{subst}
use mathlib.Core.List.{Mem, mem-cons_self, mem-cons_of_mem}
use contain.Images.{ChildDescriptor, Action, wrote, released, acquired, Images, ConfigFile}
use contain.Appender.{
  Appender, AppendError, AppendResult, get_manifest_layer, get_layers_delta, prepare, finish, push,
  get_base, override_config, annotate, config_of, appending, digest_of, delta, push_then_finish,
  push_and_finish, append, Method, acquire_lock, releasing, lock, push_media_type, pushing,
}
use contain.Appender.Env.{EnvMap}
use contain.Localdir.Filemap.{Archive}

delta_from :
    (n i : ℕ) (layers : List ChildDescriptor)
    → get_layers_delta n i layers ≡ map get_manifest_layer (drop (n - i) layers)
unfolding get_layers_delta
delta_from n i [] = sym (drop-nil (n - i))
  where
    drop-nil : (k : ℕ) → map get_manifest_layer (drop k []) ≡ []
    drop-nil zero = refl
    drop-nil (suc k) = refl
delta_from n i (layer ∷ layers) =
    let dropped = λ (k : ℕ). map get_manifest_layer (drop k (layer ∷ layers)) in
    let rest = λ (k : ℕ). map get_manifest_layer (drop k layers) in
    elim (Bool-cases (leb n i)) [
      | inl past ↦
          let here : dropped (n - i) ≡ dropped 0 = ap dropped {x = n - i} {y = 0} (ground arith) in
          let later : rest (n - suc i) ≡ rest 0 = ap rest {x = n - suc i} {y = 0} (ground arith) in
          ground (arith, past, here, later, delta_from n (suc i) layers)
      | inr before ↦
          let here : dropped (n - i) ≡ dropped (suc (n - suc i)) =
            ap dropped {x = n - i} {y = suc (n - suc i)} (ground arith) in
          ground (arith, before, here, delta_from n (suc i) layers)
    ]

get_layers_delta-drop :
    (n : ℕ) (layers : List ChildDescriptor)
    → get_layers_delta n 0 layers ≡ map get_manifest_layer (drop n layers)
get_layers_delta-drop n layers =
    delta_from n 0 layers ∙ ap (λ k. map get_manifest_layer (drop k layers)) (omega arith)

module _ {Image Index : Type 0} (lib : Images Image Index) (range : EnvMap → EnvMap)
    (a : Appender Image) where
  -- The image of a result was accepted under the tag, and the hash is its digest.
  abbrev pub IsPushed : AppendResult Image → List (Action Image Index) → Type 0
  IsPushed r h = Mem (wrote a.tag_ref r.pushed.add true) h × (lib.digest r.pushed.add ≡ some r.hash)

  abbrev Reported : Result AppendError (AppendResult Image) × List (Action Image Index) → Type 0
  Reported (ok r, h) = IsPushed r h
  Reported (err e, h) = Unit

  prepared_digest :
      (h : List (Action Image Index)) (layers : List Archive)
      → Holds (λ (base, c, img, d). lib.digest img ≡ some d) (prepare lib range h a layers)
  unfolding prepare
  prepared_digest h layers = Holds->>= _ (get_base lib range h a) _ (λ base _.
      Holds->>= _ (or_err (lib.config_file base) config_of) _ (λ c _.
        Holds->>= _ (or_err (lib.append_layers base layers) appending) _ (λ img _.
          Holds->>= _ (override_config lib range a img) _ (λ o _.
            Holds->>= _ (or_err (lib.digest (annotate a.annotators o)) digest_of) _
              (λ d e. got (lib.digest (annotate a.annotators o)) e)))))
    where
      got : (o : Option String) {d : String} → or_err o digest_of ≡ ok d → o ≡ some d
      got o e = ground arith

  finish_image :
      (base : Image) (c : ConfigFile) (img : Image) (d : String)
      → Holds (λ r. (r.pushed.add ≡ img) × (r.hash ≡ d)) (finish lib range base c img d)
  unfolding finish
  finish_image base c img d =
      Holds->>= _ (or_err (lib.manifest_layers base) delta) _ (λ base_layers _.
        Holds->>= _ (or_err (lib.manifest_layers img) delta) _ (λ layers _. (refl, refl)))

  push_then_finish-Reported :
      (base : Image) (c : ConfigFile) (img : Image) (d : String) (h : List (Action Image Index))
      → lib.digest img ≡ some d
      → Reported (push_then_finish lib range a base c img d h)
  unfolding push_then_finish push
  push_then_finish-Reported base c img d h e =
      pushed (lib.media_type img) (lib.write h a.tag_ref img)
    where
      done :
          (r : Result AppendError (AppendResult Image))
          → Holds (λ x. (x.pushed.add ≡ img) × (x.hash ≡ d)) r
          → Reported (r, wrote a.tag_ref img true ∷ h)
      done (err _) k = tt
      done (ok x) (same, hash) = (
        subst (λ i. Mem (wrote a.tag_ref x.pushed.add true) (wrote a.tag_ref i true ∷ h)) same
            mem-cons_self,
        ap lib.digest same ∙ e ∙ ap some (sym hash),
      )

      pushed :
          (m : Option String) (w : Bool)
          → let p : Result AppendError (Unit {0}) × List (Action Image Index) = elim m [
            | none ↦ (err push_media_type, h)
            | some _ ↦ (if w then ok tt else err pushing, wrote a.tag_ref img w ∷ h)
          ] in
            Reported (then_do p.0 p.1 (λ _. lift (finish lib range base c img d)))
      pushed none w = tt
      pushed (some t) false = tt
      pushed (some t) true = done (finish lib range base c img d) (finish_image base c img d)

  released_too :
      (p : Result AppendError (AppendResult Image) × List (Action Image Index))
      → Reported p
      → Reported (p.0, released ∷ p.1)
  released_too (ok r, h) (m, d) = (mem-cons_of_mem _ m, d)
  released_too (err e, h) k = tt

  push_and_finish-Reported :
      (base : Image) (c : ConfigFile) (img : Image) (d : String) (h : List (Action Image Index))
      → a.skip_push ≡ false
      → lib.digest img ≡ some d
      → Reported (push_and_finish lib range a base c img d h)
  unfolding push_and_finish
  push_and_finish-Reported base c img d h on e =
      subst
        (λ b. Reported ((if b then lift (finish lib range base c img d) else chosen a.push_lock) h))
        (sym on) (locked a.push_lock)
    where
      inside : Method lib range (AppendResult Image)
      inside = push_then_finish lib range a base c img d

      chosen : Bool → Method lib range (AppendResult Image)
      chosen l = if l then (acquire_lock lib range >>>= λ _. releasing lib range inside) else inside

      taken : Bool → Result AppendError (Unit {0}) × List (Action Image Index)
      taken k = if k then (ok tt, acquired ∷ h) else (err lock, h)

      guarded :
          (k : Bool) → Reported (then_do (taken k).0 (taken k).1 (λ _. releasing lib range inside))
      guarded true = released_too _ (push_then_finish-Reported base c img d (acquired ∷ h) e)
      guarded false = tt

      locked : (l : Bool) → Reported (chosen l h)
      locked true = guarded (lib.acquire h)
      locked false = push_then_finish-Reported base c img d h e

  -- Where the append of an image succeeds and does not skip the push, the registry has accepted the
  -- image of the result under the tag, and the hash of the result is the digest of the image.
  pub append-IsPushed :
      (layers : List Archive) (h : List (Action Image Index)) (r : AppendResult Image)
      → a.skip_push ≡ false
      → (append lib range a layers h).0 ≡ ok r
      → IsPushed r (append lib range a layers h).1
  unfolding append
  append-IsPushed layers h r on e =
      taken (append lib range a layers h)
        (prepared (prepare lib range h a layers) (prepared_digest h layers)) e
    where
      prepared :
          (p : Result AppendError (Image × ConfigFile × Image × String))
          → Holds (λ (base, c, img, d). lib.digest img ≡ some d) p
          → Reported (then_do p h (λ (base, c, img, d). push_and_finish lib range a base c img d))
      prepared (err _) k = tt
      prepared (ok (base, c, img, d)) k = push_and_finish-Reported base c img d h on k

      taken :
          (p : Result AppendError (AppendResult Image) × List (Action Image Index))
          → Reported p
          → p.0 ≡ ok r
          → IsPushed r p.1
      taken (q, g) k same = subst (λ x. Reported (x, g)) same k

  -- The layers that a result reports are those of its image beyond the number of those of the base.
  abbrev pub Added : List (Action Image Index) → AppendResult Image → Type 0
  Added h r =
      (base : Image) × (base_layers : List ChildDescriptor) × (layers : List ChildDescriptor)
      × (get_base lib range h a ≡ ok base)
      × (lib.manifest_layers base ≡ some base_layers)
      × (lib.manifest_layers r.pushed.add ≡ some layers)
      × (r.added_manifest_layers ≡ map get_manifest_layer (drop (length base_layers) layers))

  finish-Added :
      (h : List (Action Image Index)) (base : Image) (c : ConfigFile) (img : Image) (d : String)
      → get_base lib range h a ≡ ok base
      → Holds (Added h) (finish lib range base c img d)
  unfolding finish
  finish-Added h base c img d of_base =
      Holds->>= _ (or_err (lib.manifest_layers base) delta) _ (λ base_layers hb.
        Holds->>= _ (or_err (lib.manifest_layers img) delta) _ (λ layers hl. (
          base,
          base_layers,
          layers,
          of_base,
          got (lib.manifest_layers base) hb,
          got (lib.manifest_layers img) hl,
          get_layers_delta-drop (length base_layers) layers,
        )))
    where
      got :
          (o : Option (List ChildDescriptor)) {x : List ChildDescriptor}
          → or_err o delta ≡ ok x
          → o ≡ some x
      got o e = ground arith

  module _ (P : AppendResult Image → Type 0) where
    then_lift :
        (r : Result AppendError (Unit {0})) (h : List (Action Image Index))
        (end : Result AppendError (AppendResult Image))
        → Holds P end
        → Holds P (then_do r h (λ _. lift end)).0
    then_lift (ok u) h end k = k
    then_lift (err e) h end k = tt

    then_release :
        (r : Result AppendError (Unit {0})) (h : List (Action Image Index))
        (m : Method lib range (AppendResult Image))
        → ((t : List (Action Image Index)) → Holds P (m t).0)
        → Holds P (then_do r h (λ _. releasing lib range m)).0
    then_release (ok u) h m k = k h
    then_release (err e) h m k = tt

    push_then_finish-Holds :
        (base : Image) (c : ConfigFile) (img : Image) (d : String) (h : List (Action Image Index))
        → Holds P (finish lib range base c img d)
        → Holds P (push_then_finish lib range a base c img d h).0
    unfolding push_then_finish
    push_then_finish-Holds base c img d h k =
        then_lift (push lib range a.tag_ref img h).0 (push lib range a.tag_ref img h).1
          (finish lib range base c img d) k

    push_and_finish-Holds :
        (base : Image) (c : ConfigFile) (img : Image) (d : String) (h : List (Action Image Index))
        → Holds P (finish lib range base c img d)
        → Holds P (push_and_finish lib range a base c img d h).0
    unfolding push_and_finish
    push_and_finish-Holds base c img d h k = chosen a.skip_push a.push_lock
      where
        inside : Method lib range (AppendResult Image)
        inside = push_then_finish lib range a base c img d

        chosen :
            (skip locked : Bool)
            → Holds P
                ((if skip
                    then lift (finish lib range base c img d)
                    else if locked
                    then (acquire_lock lib range >>>= λ _. releasing lib range inside)
                    else inside)
                  h).0
        chosen true locked = k
        chosen false true =
            then_release (acquire_lock lib range h).0 (acquire_lock lib range h).1 inside
              (λ t. push_then_finish-Holds base c img d t k)
        chosen false false = push_then_finish-Holds base c img d h k

  prepared_base :
      (h : List (Action Image Index)) (layers : List Archive)
      → Holds (λ (base, c, img, d). get_base lib range h a ≡ ok base) (prepare lib range h a layers)
  unfolding prepare
  prepared_base h layers = Holds->>= _ (get_base lib range h a) _ (λ base hb.
      Holds->>= _ (or_err (lib.config_file base) config_of) _ (λ c _.
        Holds->>= _ (or_err (lib.append_layers base layers) appending) _ (λ img _.
          Holds->>= _ (override_config lib range a img) _ (λ o _.
            Holds->>= _ (or_err (lib.digest (annotate a.annotators o)) digest_of) _ (λ d e. hb)))))

  -- Where the append of an image succeeds, the layers that it reports as added are, in order, those of
  -- the manifest of the resulting image beyond the number of the layers of the base that it pulled.
  pub append-Added :
      (layers : List Archive) (h : List (Action Image Index)) (r : AppendResult Image)
      → (append lib range a layers h).0 ≡ ok r
      → Added h r
  unfolding append
  append-Added layers h r e =
      Holds-of (Added h) _ (prepared (prepare lib range h a layers) (prepared_base h layers)) e
    where
      prepared :
          (p : Result AppendError (Image × ConfigFile × Image × String))
          → Holds (λ (base, c, img, d). get_base lib range h a ≡ ok base) p
          → Holds
              (Added h)
              (then_do p h (λ (base, c, img, d). push_and_finish lib range a base c img d)).0
      prepared (err _) k = tt
      prepared (ok (base, c, img, d)) k =
          push_and_finish-Holds (Added h) base c img d h (finish-Added h base c img d k)
