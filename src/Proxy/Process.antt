-- ===== src/Proxy/Process.antt =====
-- What a thread of project2_HTTPproxy/docker-deploy/src works on (the statics of proxy.cpp), with the
-- header and the response of response.hpp.
use duke_ece.Prelude.{if◌then◌else◌, ℕ, Bool, true, false, List, [], ◌∷◌, ◌++◌, Option, some, none}
use duke_ece.Prelude.Int.{ℤ}
use duke_ece.Proxy.Text.{Text}
use duke_ece.Proxy.Lru.{Lru}

-- The fields of `struct tm` that a TimeParser sets.
pub record Tm : Type 0 where
  pub tm_mday : ℤ
  pub tm_mon : ℤ
  pub tm_year : ℤ
  pub tm_hour : ℤ
  pub tm_min : ℤ
  pub tm_sec : ℤ
  pub tm_wday : ℤ
  pub tm_isdst : ℤ

pub record Header : Type 0 where
  pub content_type : Text
  pub content_length : Text
  pub server_name : Text
  pub etag : Text
  pub last_modified : Text
  pub expiration_str : Text
  pub location : Text
  pub status_code : Text
  pub expiration_time : Tm
  pub response_time : Tm
  pub no_cache : Bool
  pub max_age : ℤ

pub record Response : Type 0 where
  pub response : Text
  pub header : Header
  pub status_line : Text

-- The lines of the log.
pub data LogLine : Type 0 where
  in_cache_valid requires_validation no_store bad_gateway tunnel_open chunked requesting received
        not_in_cache :
      (id : ℕ) → LogLine
  received_line responding note_expires note_etag note_last_modified : (id : ℕ) → Text → LogLine
  note_no_cache bad_request connection_closed : (id : ℕ) → LogLine
  invalid_method asked : (id : ℕ) → Text → LogLine
  bad_length not_listening no_client : LogLine
  note_max_age : (id : ℕ) → ℤ → LogLine
  expired cached_expired : (id : ℕ) → ℤ → LogLine
  expires_at : (id : ℕ) → ℤ → LogLine
  expires_text : (id : ℕ) → Text → LogLine

pub data Peer : Type 0 where
  client server : Peer

pub record Process : Type 0 where
  pub cache : Lru Response
  pub locked : Bool
  pub log : List LogLine
  pub sent : List (Peer × Text)

-- How a call ends: it returns; it never does, since it waits for a mutex that its own thread holds or
-- for bytes that do not come; an exception or undefined behaviour ends the process.
pub data Outcome (A : Type 0) : Type 0 where
  done : A → Process → Outcome A
  blocked crashed : Outcome A

abbrev pub Action : Type 0 → Type 0
Action A = Process → Outcome A

abbrev pub and_then : {A B : Type 0} → Outcome A → (A → Action B) → Outcome B
and_then (done a s) f = f a s
and_then blocked f = blocked
and_then crashed f = crashed

infixl 5 ◌>>=◌
abbrev pub ◌>>=◌ : {A B : Type 0} → Action A → (A → Action B) → Action B
(m >>= f) s = and_then (m s) f

abbrev pub return : {A : Type 0} → A → Action A
return a s = done a s

-- pthread_mutex_lock, on a mutex that is not recursive.
unfoldable pub lock : Action Unit
lock s = if s.locked then blocked else done tt (record s { locked = true })

unfoldable pub unlock : Action Unit
unlock s = done tt (record s { locked = false })

abbrev pub write : LogLine → Action Unit
write line s = done tt (record s { log = s.log ++ line ∷ [] })

-- `logFile << ...` between lock and unlock.
unfoldable pub note : LogLine → Action Unit
note line = do _ ← lock; _ ← write line; unlock

abbrev pub send : Peer → Text → Action Unit
send to text s = done tt (record s { sent = s.sent ++ (to, text) ∷ [] })

-- A call of the cache: `none` is its undefined behaviour.
abbrev pub on_cache : (Lru Response → Option (Lru Response)) → Action Unit
on_cache f s = elim (f s.cache) [
  | none ↦ crashed
  | some after ↦ done tt (record s { cache = after })
]

-- The same between lock and unlock.
unfoldable pub locked_cache : (Lru Response → Option (Lru Response)) → Action Unit
locked_cache f = do _ ← lock; _ ← on_cache f; unlock
