-- ===== src/Appender/Locked.antt =====
-- The append of an image (appender_remote.go) and the push lock.
use contain.Base.{
  ◌≡◌, refl, String, Bool, true, false, ◌&&◌, List, [], ◌∷◌, Option, none, some, arith,
  if◌then◌else◌,
}
use contain.Base.{then_do, ◌>>>=◌, Keeps, Result, ok, err, lift}
use contain.Images.{Action, acquired, released, wrote, Images, ConfigFile}
use contain.Appender.{
  Appender, AppendError, AppendResult, Method, push, finish, push_then_finish, push_and_finish,
  append, push_media_type, pushing, lock, releasing, prepare, acquire_lock,
}
use contain.Appender.Env.{EnvMap}
use contain.Localdir.Filemap.{Archive}

module _ {Image Index : Type 0} where
  -- Whether the lock is held after a trace.
  abbrev pub held : List (Action Image Index) → Bool
  held [] = false
  held (acquired ∷ h) = true
  held (released ∷ h) = false
  held (_ ∷ h) = held h

  -- Every image was written while the lock was held.
  unfoldable pub locked_writes : List (Action Image Index) → Bool
  locked_writes [] = true
  locked_writes (wrote tag img accepted ∷ h) = held h && locked_writes h
  locked_writes (_ ∷ h) = locked_writes h

  abbrev pub Unlocked : List (Action Image Index) → Type 0
  Unlocked h = (locked_writes h ≡ true) × (held h ≡ false)

  abbrev InLock : List (Action Image Index) → Type 0
  InLock h = (locked_writes h ≡ true) × (held h ≡ true)

module _ {Image Index : Type 0} (lib : Images Image Index) (range : EnvMap → EnvMap)
    (a : Appender Image) where
  push_then_finish-InLock :
      (base : Image) (c : ConfigFile) (img : Image) (d : String) (h : List (Action Image Index))
      → InLock h
      → InLock (push_then_finish lib range a base c img d h).1
  unfolding push_then_finish push locked_writes
  push_then_finish-InLock base c img d h (l, k) = ground arith

  push_and_finish-Unlocked :
      (base : Image) (c : ConfigFile) (img : Image) (d : String) (h : List (Action Image Index))
      → a.push_lock ≡ true
      → Unlocked h
      → Unlocked (push_and_finish lib range a base c img d h).1
  unfolding push_and_finish locked_writes
  push_and_finish-Unlocked base c img d h on u =
      let inside = push_then_finish-InLock base c img d (acquired ∷ h) (u.0, refl) in
      ground (arith, on, u, inside)

  -- With a push lock, the append of an image writes it while it has the lock, and gives the lock back
  -- whether it succeeds or fails.
  pub append-Unlocked :
      (layers : List Archive) (h : List (Action Image Index))
      → a.push_lock ≡ true
      → Unlocked h
      → Unlocked (append lib range a layers h).1
  unfolding append
  append-Unlocked layers h on u = prepared (prepare lib range h a layers)
    where
      prepared :
          (r : Result AppendError (Image × ConfigFile × Image × String))
          → Unlocked (then_do r h (λ (base, c, img, d). push_and_finish lib range a base c img d)).1
      prepared (err e) = u
      prepared (ok (base, c, img, d)) = push_and_finish-Unlocked base c img d h on u

  -- An append that is told to skip the push does nothing to the outside.
  pub append_dry :
      (layers : List Archive) (h : List (Action Image Index))
      → a.skip_push ≡ true
      → (append lib range a layers h).1 ≡ h
  unfolding append push_and_finish
  append_dry layers h on = prepared (prepare lib range h a layers)
    where
      prepared :
          (r : Result AppendError (Image × ConfigFile × Image × String))
          → (then_do r h (λ (base, c, img, d). push_and_finish lib range a base c img d)).1 ≡ h
      prepared (err e) = refl
      prepared (ok (base, c, img, d)) = ground (arith, on)

  -- Appending an image only takes the lock, gives it back, and writes an image.
  module _ (P : List (Action Image Index) → Type 0)
      (on_acquired : (h : List (Action Image Index)) → P h → P (acquired ∷ h))
      (on_released : (h : List (Action Image Index)) → P h → P (released ∷ h))
      (on_wrote : (h : List (Action Image Index)) (tag : String) (img : Image) (accepted : Bool)
        → P h
        → P (wrote tag img accepted ∷ h)) where
    push_then_finish-Keeps :
        (base : Image) (c : ConfigFile) (img : Image) (d : String)
        → Keeps P (push_then_finish lib range a base c img d)
    unfolding push_then_finish push
    push_then_finish-Keeps base c img d h p =
        pushed (lib.media_type img) (lib.write h a.tag_ref img)
      where
        pushed :
            (m : Option String) (w : Bool)
            → let r : Result AppendError (Unit {0}) × List (Action Image Index) = elim m [
              | none ↦ (err push_media_type, h)
              | some _ ↦ (if w then ok tt else err pushing, wrote a.tag_ref img w ∷ h)
            ] in
              P (then_do r.0 r.1 (λ _. lift (finish lib range base c img d))).1
        pushed none w = p
        pushed (some t) true = on_wrote h a.tag_ref img true p
        pushed (some t) false = on_wrote h a.tag_ref img false p

    push_and_finish-Keeps :
        (base : Image) (c : ConfigFile) (img : Image) (d : String)
        → Keeps P (push_and_finish lib range a base c img d)
    unfolding push_and_finish
    push_and_finish-Keeps base c img d h p = settled a.skip_push a.push_lock
      where
        inside : Method lib range (AppendResult Image)
        inside = push_then_finish lib range a base c img d

        acquisition : Bool → Result AppendError (Unit {0}) × List (Action Image Index)
        acquisition k = if k then (ok tt, acquired ∷ h) else (err lock, h)

        guarded :
            (k : Bool)
            → P (then_do (acquisition k).0 (acquisition k).1 (λ _. releasing lib range inside)).1
        guarded true =
            on_released _ (push_then_finish-Keeps base c img d (acquired ∷ h) (on_acquired h p))
        guarded false = p

        settled :
            (s l : Bool)
            → P
                ((if s
                    then lift (finish lib range base c img d)
                    else if l
                    then (acquire_lock lib range >>>= λ _. releasing lib range inside)
                    else inside)
                  h).1
        settled true l = p
        settled false true = guarded (lib.acquire h)
        settled false false = push_then_finish-Keeps base c img d h p

    pub append-Keeps : (layers : List Archive) → Keeps P (append lib range a layers)
    unfolding append
    append-Keeps layers h p = prepared (prepare lib range h a layers)
      where
        prepared :
            (r : Result AppendError (Image × ConfigFile × Image × String))
            → P (then_do r h (λ (base, c, img, d). push_and_finish lib range a base c img d)).1
        prepared (err e) = p
        prepared (ok (base, c, img, d)) = push_and_finish-Keeps base c img d h p
