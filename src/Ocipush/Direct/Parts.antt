-- ===== src/Ocipush/Direct/Parts.antt =====
-- The sections of a blob that the parts of a direct upload carry (directpush.go).
use contain.Base.{String, ◌&&◌, not, leb, ◌==◌, str_eq, eq_refl, if◌then◌else◌, some}
use contain.Base.{ℕ, zero, suc, ◌+◌, ◌-◌, ◌*◌, ◌≤◌, ◌<◌, ◌≡◌, refl, sym, ◌∙◌, ap, min}
use contain.Base.{[], ◌∷◌, ◌++◌, length, take, drop, arith}
use contain.Ocipush.World.{Bytes}
use contain.Ocipush.World.{
  Body, Descriptor, Env, History, Method, put, Part, part, Response, Sys, Url, presigned, sent, ok,
  plain, guard,
}
use contain.Ocipush.Client.{RegClient, new_request}
use contain.Ocipush.Direct.{
  Session, part_offset, part_length, part_request, check_deadline, upload_part,
}
use contain.Ocipush.Trace.Client.{Run-transmit_last}
use contain.Ocipush.Trace.Run.{
  Any, Any-IsPreorder, Run-Any, Run, Run-bind, Run-fail, Run-if, Run-step, Run-wrap_err,
}

-- What the section reader of part `i` yields.
unfoldable pub section : ℕ → Bytes → ℕ → Bytes
section part_size content i =
    take (part_length part_size (length content) i) (drop (part_offset part_size i) content)

-- What the parts carry, put together in the order of their numbers.
unfoldable pub assemble : (ℕ → Bytes) → ℕ → Bytes
assemble carried zero = []
assemble carried (suc n) = assemble carried n ++ carried n

take-nil : (b : ℕ) → take {A = ℕ} b [] ≡ []
take-nil zero = refl
take-nil (suc b) = refl

take-add : (a b : ℕ) (s : Bytes) → take (a + b) s ≡ take a s ++ take b (drop a s)
take-add zero b s = let e : 0 + b ≡ b = omega arith in rw e
take-add (suc a) b [] = let e : suc a + b ≡ suc (a + b) = omega arith in rw e (sym (take-nil b))
take-add (suc a) b (c ∷ s) =
    let e : suc a + b ≡ suc (a + b) = omega arith in rw e (ap (λ t. c ∷ t) (take-add a b s))

length-drop : (a : ℕ) (s : Bytes) → length (drop a s) ≡ length s - a
length-drop zero s = omega arith
length-drop (suc a) [] = omega arith
length-drop (suc a) (c ∷ s) = omega (arith, length-drop a s)

-- A read past the end stops there.
take-min : (a : ℕ) (s : Bytes) → take (min a (length s)) s ≡ take a s
take-min zero s = let e : min 0 (length s) ≡ 0 = omega arith in rw e
take-min (suc a) [] = let e : min (suc a) 0 ≡ 0 = omega arith in rw e
take-min (suc a) (c ∷ s) =
    let e : min (suc a) (suc (length s)) ≡ suc (min a (length s)) = omega arith in
    rw e (ap (λ t. c ∷ t) (take-min a s))

-- A section is the next `part_size` bytes.
section-eq-take :
    (part_size : ℕ) (content : Bytes) (n : ℕ)
    → section part_size content n ≡ take part_size (drop (n * part_size) content)
unfolding section part_offset part_length
section-eq-take part_size content n =
    rw (sym (length-drop (n * part_size) content))
      (take-min part_size (drop (n * part_size) content))

take-all : (a : ℕ) (s : Bytes) → length s ≤ a → take a s ≡ s
take-all zero [] h = refl
take-all zero (c ∷ s) h = absurd (omega arith)
take-all (suc a) [] h = refl
take-all (suc a) (c ∷ s) h = ap (λ t. c ∷ t) (take-all a s (omega arith))

assemble-take :
    (part_size : ℕ) (content : Bytes) (carried : ℕ → Bytes) (n : ℕ)
    → ((i : ℕ) → i < n → carried i ≡ section part_size content i)
    → assemble carried n ≡ take (n * part_size) content
unfolding assemble
assemble-take part_size content carried zero same = let e : 0 * part_size ≡ 0 = omega arith in rw e
assemble-take part_size content carried (suc n) same =
    let e : suc n * part_size ≡ n * part_size + part_size = grind arith in
    rw (
      e,
      take-add,
      assemble-take part_size content carried n (λ i l. same i (omega (arith, l))),
      same n (omega arith),
      section-eq-take part_size content n,
    )

-- What a request carries to a presigned address: the section of a content that is its body.
abbrev sent_to : String → Method → Url → Body → Bytes
sent_to url put (presigned to) (part content offset len) =
    if str_eq to url then take len (drop offset content) else []
sent_to _ _ _ _ = []

-- What the last exchange has brought to a presigned address, where there was an answer.
abbrev pub last_sent : String → History → Bytes
last_sent url (sent req (some res) ∷ _) = sent_to url req.method req.url req.body
last_sent _ _ = []

module _ (env : Env) (c : RegClient) (session : Session) (d : Descriptor) (content : Bytes) where
  upload_part-section :
      (i : ℕ) (url : String) (s : Sys) (p : Part)
      → d.size ≡ length content
      → (upload_part env c session d content i url s).0 ≡ ok p
      → last_sent url (upload_part env c session d content i url s).1.history
        ≡ section session.doc.part_size content i
  unfolding upload_part section
  upload_part-section i url s p whole = run.returns p
    where
      offset : ℕ
      offset = part_offset session.doc.part_size i

      len : ℕ
      len = part_length session.doc.part_size d.size i

      IsSent : Sys → Type 0
      IsSent t = last_sent url t.history ≡ section session.doc.part_size content i

      carries :
          (res : Response) (h : History) (t : Sys)
          → t.history ≡ sent (part_request c session content url offset len) (some res) ∷ h
          → IsSent t
      carries res h t last =
          ap (last_sent url) last
          ∙ ap (λ b. if b then take len (drop offset content) else []) (eq_refl url)
          ∙ ap (λ n. take (part_length session.doc.part_size n i) (drop offset content)) whole

      run : Run ⊥ Any s (upload_part env c session d content i url s) (λ _ t. IsSent t)
      run =
          Run-bind Any-IsPreorder _ _ (Run-Any (guard (not (len == 0)) (plain "part: no data") s))
            λ _ t _ _.
              Run-bind Any-IsPreorder _ _ (Run-Any (check_deadline env session.deadline t))
                λ _ u _ _.
                  Run-bind Any-IsPreorder _ _ (Run-Any (new_request env (presigned url) u))
                    λ _ v _ _.
                      Run-bind Any-IsPreorder _ _
                        (Run-wrap_err _ _
                          (Run-transmit_last env (part_request c session content url offset len) v))
                        λ res w _ (h, last).
                          Run-if (res.status == 403) _ _ (λ _. Run-fail _ tt)
                            (λ _.
                              Run-if (leb 200 res.status && leb res.status 299) _ _
                                (λ _. Run-step _ tt (carries res h w last)) (λ _. Run-fail _ tt))

  -- Where each of the first `n` parts is uploaded without an error, from whatever state, the content
  -- has the size of the descriptor, and `n` parts of the session's size are enough for it, what the
  -- uploads have brought to the addresses of the parts is, put together in the order of the parts,
  -- the content: no byte is missing, doubled or out of place.
  pub upload_part-content :
      (n : ℕ) (url : ℕ → String) (s : ℕ → Sys) (p : ℕ → Part)
      → d.size ≡ length content
      → length content ≤ n * session.doc.part_size
      → ((i : ℕ) → i < n → (upload_part env c session d content i (url i) (s i)).0 ≡ ok (p i))
      → assemble
          (λ i. last_sent (url i) (upload_part env c session d content i (url i) (s i)).1.history)
          n
        ≡ content
  upload_part-content n url s p whole enough done =
      assemble-take session.doc.part_size content _ n
        (λ i l. upload_part-section i (url i) (s i) (p i) whole (done i l))
      ∙ take-all (n * session.doc.part_size) content enough
