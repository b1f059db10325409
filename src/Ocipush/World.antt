-- ===== src/Ocipush/World.antt =====
-- What pkg/ocipush runs against: the requests that it sends, the replies, the files that it
-- stages, and the monad of its methods. The network, the clock and the digest function are
-- parameters, so a theorem holds for every registry.
use contain.Base.{ℕ, String, Bool, true, false, Option, none, some, List, ◌∷◌}
use contain.Base.{str_eq, if◌then◌else◌}

abbrev pub Bytes : Type 0
Bytes = List ℕ

-- `descriptor` and `manifestDoc` of ocipush.go.
pub record Descriptor : Type 0 where
  pub media_type : String
  pub digest : String
  pub size : ℕ

pub record ManifestDoc : Type 0 where
  pub media_type : String
  pub manifests : List Descriptor
  pub config : Option Descriptor
  pub layers : List Descriptor

-- Which of the two registry clients sends: the destination's or the source's.
pub data Role : Type 0 where
  src dst : Role

pub data Scope : Type 0 where
  pull push : Scope

pub data Method : Type 0 where
  get head post put patch delete : Method
  other : String → Method

-- The addresses that the code writes, below the base of a client's registry. `location` is the
-- upload location that a registry returned, with the digest as its query; `presigned` is a
-- storage address that a session handed out.
pub data Url : Type 0 where
  blob : String → String → Url
  uploads : String → Url
  manifest : String → String → Url
  tags : String → Url
  discover : Url
  ext_uploads : Url
  ext_commit : Url
  location : String → String → Url
  presigned : String → Url

-- `extPart` of directpush.go.
pub record Part : Type 0 where
  pub number : ℕ
  pub etag : String

-- The fields of the JSON that opens and that commits a direct upload.
pub record StartFields : Type 0 where
  pub repository : String
  pub digest : String
  pub size : ℕ
  pub part_size : Option ℕ

pub record CommitFields : Type 0 where
  pub repository : String
  pub digest : String
  pub size : ℕ
  pub key : String
  pub upload : Option (String × List Part)

-- `part` is the section of a staged file from an offset on.
pub data Body : Type 0 where
  empty : Body
  raw : Bytes → Body
  part : Bytes → ℕ → ℕ → Body
  start : StartFields → Body
  commit : CommitFields → Body

-- `auth` is none for the raw client, which sends no credentials.
pub record Request : Type 0 where
  pub role : Role
  pub auth : Option (String × Scope)
  pub method : Method
  pub url : Url
  pub headers : List (String × String)
  pub body : Body
  pub content_length : Option ℕ  -- where the code sets it

-- `complete` is false when reading the body fails before its end.
pub record Response : Type 0 where
  pub status : ℕ
  pub headers : List (String × String)
  pub body : Bytes
  pub complete : Bool

-- One exchange with what lies outside: a request and its response (none is a transport error),
-- an authentication handshake, a reading of the clock, of the context, or a new temporary file.
pub data Event : Type 0 where
  sent : Request → Option Response → Event
  authenticated : Role → String → Scope → Bool → Event
  clock : ℕ → Event
  context : Bool → Event
  temp_file : Option String → Event
  picked : ℕ → Event
  disk : Bool → Event

-- The newest exchange comes first.
abbrev pub History : Type 0
History = List Event

-- `extStartResponse` of directpush.go, as decoded.
pub record SessionDoc : Type 0 where
  pub exists : Bool
  pub key : String
  pub upload_id : String
  pub part_size : ℕ
  pub urls : List String
  pub expires_seconds : ℕ
  pub headers : List (String × String)

-- `name.Reference`: repository, tag or digest, and the digest of a `name.Digest`.
pub record Reference : Type 0 where
  pub repository : String
  pub identifier : String
  pub pinned : Option String

-- The world: each answer may depend on everything that happened before.
pub record Env : Type 0 where
  pub respond : History → Request → Option Response
  pub grant : History → Role → String → Scope → Bool
  pub now : History → ℕ
  pub cancelled : History → Bool
  pub temp_name : History → Option String
  pub choose : History → ℕ
  -- whether a directory can be made, or a file written or closed
  pub disk_ok : History → Bool
  pub getenv : String → String
  -- go-containerregistry: references, and the keychain's credentials for a registry
  pub parse_reference : String → Option Reference
  pub has_credentials : Role → Bool
  -- crypto/sha256 of a content, written `sha256:` and 64 hexadecimal digits
  pub digest_of : Bytes → String
  -- encoding/json on the documents that are read
  pub parse_manifest : Bytes → Option ManifestDoc
  pub parse_session : Bytes → Option SessionDoc
  pub parse_extensions : Bytes → Option (List (String × List String))
  -- net/url: `NewRequest` accepts the address; an upload location resolved against its request
  pub valid_url : Url → Bool
  pub resolve : Url → String → Option String

-- The failures. `status_err` is `*statusErr`, `retryable` the wrapper of that name, `wrapped` is
-- `fmt.Errorf` with `%w`, `plain` and `plain_status` any other error.
pub data Error : Type 0 where
  status_err : String → ℕ → Bytes → Error
  retryable : Error → Error
  ext_unsupported : Error
  ext_expired : Error
  plain : String → Error
  plain_status : String → ℕ → Bytes → Error
  wrapped : String → Error → Error

-- `out_of_fuel` is no outcome of the code: a walk of a manifest tree that was given too little.
pub data Result (A : Type 0) : Type 0 where
  ok : A → Result A
  err : Error → Result A
  out_of_fuel : Result A

-- What the methods change: the exchanges so far, the files on disk, the scopes that have an
-- authenticated client, and whether discovery has run and found the extension usable.
pub record Sys : Type 0 where
  pub history : History
  pub files : String → Option Bytes
  pub clients : List (Role × String × Scope)
  pub discovered : Bool
  pub usable : Bool

abbrev pub Exec : Type 0 → Type 0
Exec A = Sys → Result A × Sys

abbrev pub pure : {A : Type 0} → A → Exec A
pure a s = (ok a, s)

abbrev pub raise : {A : Type 0} → Error → Exec A
raise e s = (err e, s)

abbrev pub continue : {A B : Type 0} → Result A → (A → Exec B) → Exec B
continue (ok a) f s = f a s
continue (err e) f s = (err e, s)
continue out_of_fuel f s = (out_of_fuel, s)

infixl 5 ◌>>=◌ ◌>>◌
abbrev pub ◌>>=◌ : {A B : Type 0} → Exec A → (A → Exec B) → Exec B
◌>>=◌ m f s = continue (m s).0 f (m s).1

abbrev pub ◌>>◌ : {B : Type 0} → Exec (Unit {0}) → Exec B → Exec B
m >> k = m >>= λ _. k

-- The outcome as a value, for code that looks at the error and goes on.
abbrev pub attempt : {A : Type 0} → Exec A → Exec (Result A)
attempt m s = (ok (m s).0, (m s).1)

-- `return err` of an outcome at hand.
abbrev pub give : {A : Type 0} → Result A → Exec A
give r s = (r, s)

-- `fmt.Errorf("…: %w", err)` on the error path.
abbrev pub wrap_result : {A : Type 0} → (Error → Error) → Result A → Result A
wrap_result f (ok a) = ok a
wrap_result f (err e) = err (f e)
wrap_result f out_of_fuel = out_of_fuel

abbrev pub wrap_err : {A : Type 0} → (Error → Error) → Exec A → Exec A
wrap_err f m s = (wrap_result f (m s).0, (m s).1)

abbrev pub from_option : {A : Type 0} → Error → Option A → Exec A
from_option e none = raise e
from_option e (some a) = pure a

abbrev pub guard : Bool → Error → Exec (Unit {0})
guard true e = pure tt
guard false e = raise e

-- `defer`: what is deferred runs however the rest ends.
abbrev pub deferring : {A : Type 0} → (Sys → Sys) → Exec A → Exec A
deferring f m s = ((m s).0, f (m s).1)

abbrev pub gets : {A : Type 0} → (Sys → A) → Exec A
gets f s = (ok (f s), s)

abbrev pub write_file : String → Option Bytes → Sys → Sys
write_file p b s = record s { files = λ q. if str_eq p q then b else s.files q }

abbrev pub record_event : Event → Sys → Sys
record_event e s = record s { history = e ∷ s.history }
