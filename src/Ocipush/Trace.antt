-- ===== src/Ocipush/Trace.antt =====
-- What an exchange with the registry proves to the client that sent it, and when a history of
-- exchanges is in order: the vocabulary of the theorems on Push and Mirror.
pub mod Run
pub mod Client
pub mod Upload
pub mod Direct
pub mod Session
pub mod Order
use contain.Base.{
  ◌≡◌, String, Bool, true, false, ◌&&◌, ◌||◌, not, Option, none, some, List, [], ◌∷◌,
}
use contain.Base.{str_eq, leb, ◌==◌, if◌then◌else◌, all, any}
use contain.Ocipush.World.{
  Bytes, Descriptor, ManifestDoc, Role, Method, head, put, Url, blob, manifest,
}
use contain.Ocipush.World.{
  presigned, location, ext_uploads, ext_commit, raw, start, part, commit, Request,
}
use contain.Ocipush.World.{Response, Event, sent, History, SessionDoc, Env}
use contain.Ocipush.Client.{role_eq}
use contain.Ocipush.Digest.{blobs_of, equal_fold}

-- What a registry can be seen to hold.
pub data Item : Type 0 where
  blob_item : String → String → Item
  manifest_item : String → String → Item
  session_item : String → Item  -- a session of the extension for a digest

abbrev pub is_head : Method → Bool
is_head head = true
is_head _ = false

abbrev pub is_put : Method → Bool
is_put put = true
is_put _ = false

abbrev pub says_exists : Option SessionDoc → Bool
says_exists none = false
says_exists (some doc) = doc.exists

module _ (env : Env) (role : Role) where
  -- A 200 for a HEAD, a 201 for an upload, a committed or an existing direct upload.
  unfoldable pub shows_blob : Request → Response → String → String → Bool
  shows_blob req res repo digest = role_eq req.role role && elim req.url [
    | blob r d ↦ is_head req.method && (str_eq r repo && (str_eq d digest && res.status == 200))
    | location _ d ↦ elim req.auth [
      | none ↦ false
      | some (r, _) ↦ is_put req.method && (str_eq r repo && (str_eq d digest && res.status == 201))
    ]
    | ext_commit ↦ elim req.body [
      | commit f ↦ str_eq f.repository repo && (str_eq f.digest digest && res.status == 200)
      | _ ↦ false
    ]
    | ext_uploads ↦ elim req.body [
      | start f ↦
          str_eq f.repository repo
          && (str_eq f.digest digest
              && (res.status == 200 && says_exists (env.parse_session res.body)))
      | _ ↦ false
    ]
    | _ ↦ false
  ]

  unfoldable pub shows_manifest : Request → Response → String → String → Bool
  shows_manifest req res repo ref = role_eq req.role role && elim req.url [
    | manifest r f ↦
        is_put req.method
        && (str_eq r repo && (str_eq f ref && (leb 200 res.status && leb res.status 299)))
    | _ ↦ false
  ]

  -- An answered request for a session, whatever the answer.
  unfoldable pub shows_session : Request → String → Bool
  shows_session req digest =
      role_eq req.role role && elim req.body [ start f ↦ str_eq f.digest digest | _ ↦ false ]

  unfoldable pub shows : Item → Event → Bool
  unfolding shows_blob shows_manifest shows_session
  shows i e = elim e [
    | sent req answer ↦ elim answer [
      | none ↦ false
      | some res ↦ elim i [
        | blob_item repo digest ↦ shows_blob req res repo digest
        | manifest_item repo ref ↦ shows_manifest req res repo ref
        | session_item digest ↦ shows_session req digest
      ]
    ]
    | _ ↦ false
  ]

  -- Whether the history shows that the registry holds the item.
  unfoldable pub present : History → Item → Bool
  present h i = any (shows i) h

  -- Everything that a document refers to is in the repository.
  unfoldable pub complete : History → String → ManifestDoc → Bool
  unfolding present
  complete h repo doc =
      all (λ d. present h (manifest_item repo d.digest)) doc.manifests
      && all (λ d. present h (blob_item repo d.digest)) (blobs_of doc)

  -- A manifest is uploaded only after everything that it refers to.
  unfoldable pub children_first : Event → History → Bool
  unfolding complete
  children_first e h = elim e [
    | sent req answer ↦
        if role_eq req.role role && is_put req.method
        then elim req.url [
          | manifest repo ref ↦ elim req.body [
            | raw bytes ↦ elim (env.parse_manifest bytes) [
              | none ↦ false
              | some doc ↦ complete h repo doc
            ]
            | _ ↦ false
          ]
          | _ ↦ true
        ]
        else true
    | _ ↦ true
  ]

  pub present-cons :
      (e : Event) (h : History) (i : Item) → shows i e ≡ true → present (e ∷ h) i ≡ true
  unfolding present
  present-cons e h i s = rw s

  abbrev pub has_digest : Option String → Bytes → Bool
  has_digest none bytes = true
  has_digest (some digest) bytes = str_eq (env.digest_of bytes) digest

  -- Whether a manifest may go up under a reference.
  unfoldable pub named : String → Option String → Bytes → String → Bool
  named root pinned bytes ref =
      (str_eq ref root && has_digest pinned bytes) || str_eq (env.digest_of bytes) ref

  -- Whether a session was requested for a digest that the content has.
  unfoldable pub opens : Bytes → Event → Bool
  opens content e = elim e [
    | sent req answer ↦
        role_eq req.role role
        && elim req.body [ start f ↦ equal_fold (env.digest_of content) f.digest | _ ↦ false ]
    | _ ↦ false
  ]

  -- What is uploaded has the digest that it goes by: the content of a blob the digest in the
  -- address, the content that a part is a section of the digest of a session that was requested
  -- before, a manifest its reference. The root goes up under the reference `root`, and has the
  -- digest that pins it, if one does.
  unfoldable pub verified : String → Option String → Event → History → Bool
  unfolding opens
  verified root pinned e h = elim e [
    | sent req answer ↦
        if role_eq req.role role && is_put req.method
        then elim req.body [
          | raw bytes ↦ elim req.url [
            | manifest _ ref ↦ named root pinned bytes ref
            | location _ digest ↦ equal_fold (env.digest_of bytes) digest
            | _ ↦ true
          ]
          | part content _ _ ↦ elim req.url [ presigned _ ↦ any (opens content) h | _ ↦ true ]
          | _ ↦ true
        ]
        else true
    | _ ↦ true
  ]

-- Every exchange obeys the rule, given what came before it.
unfoldable pub audit : (Event → History → Bool) → History → Bool
audit rule [] = true
audit rule (e ∷ h) = rule e h && audit rule h
