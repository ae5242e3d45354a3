-- ===== src/Proxy/Redirect.antt =====
-- updateRequestForRedirection and checkRedirection of proxy.cpp, project2_HTTPproxy/docker-deploy/src,
-- which nothing calls.
use duke_ece.Prelude.{
  ℕ, zero, suc, ◌==◌, ◌-◌, ◌+◌, ltb, Bool, List, [], ◌∷◌, ◌++◌, Option, some, none, ◌>>=◌,
  if◌then◌else◌,
}
use duke_ece.Proxy.Text.{Text, bytes, find, substr, same_text}
use duke_ece.Proxy.Request.{space}
use duke_ece.Proxy.Process.{Response}

abbrev pub or_here : Bool → Option ℕ → Option ℕ
or_here here (some i) = some (suc i)
or_here here none = if here then some 0 else none

-- `s.rfind(c)`; `none` is npos.
unfoldable pub rfind : ℕ → Text → Option ℕ
rfind c [] = none
rfind c (d ∷ s) = or_here (d == c) (rfind c s)

-- The new first line, where a path stands between the two positions. The `substr` does not throw.
abbrev pub relocated : Text → Text → ℕ → ℕ → Option Text
relocated location line start end =
    if ltb start end
    then (do
      path ← substr line (start + 1) (end - start - 1)
      some (bytes "GET " ++ (location ++ (path ++ bytes " HTTP/1.1"))))
    else some line

-- updateRequestForRedirection.
unfoldable pub update_request_for_redirection : Text → Text → Option Text
update_request_for_redirection location line = elim (find space line) [
  | none ↦ some line
  | some start ↦ elim (rfind 32 line) [
    | none ↦ some line
    | some end ↦ relocated location line start end
  ]
]

-- checkRedirection: the first lines of `rounds` rounds of its loop, which has no end.
unfoldable pub redirect : ℕ → Text → Text → Option (List Text)
redirect zero location line = some []
redirect (suc rounds) location line = do
  next ← update_request_for_redirection location line
  more ← redirect rounds location next
  some (next ∷ more)

unfoldable pub check_redirection : ℕ → Response → Text → Option (List Text)
check_redirection rounds r line =
    if same_text r.header.status_code (bytes "302")
    then redirect rounds r.header.location line
    else some []
