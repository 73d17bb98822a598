-- ===== src/Auth/Unlike.antt =====
-- Rows with hashes and ids of their own stay such.
use carbon_contractors_com.Prelude.{
  ◌≡◌, Bool, true, false, List, [], ◌∷◌, String, same, if◌then◌else◌, update, arith,
}
use carbon_contractors_com.Auth.{Session}
use carbon_contractors_com.Auth.Sessions.{has_hash, has_session_id, is_taken}
use carbon_contractors_com.Auth.Grants.{IsUnlike, Unlike}

pub not_taken-IsUnlike :
    (id h : String) (s : Session) (rows : List Session)
    → s.id ≡ id
    → s.token_hash ≡ h
    → is_taken id h rows ≡ false
    → IsUnlike s rows
unfolding is_taken has_hash has_session_id
not_taken-IsUnlike id h s [] ei eh e = tt
not_taken-IsUnlike id h s (r ∷ rows) ei eh e = (
  (rw eh (ground arith), rw ei (ground arith)),
  not_taken-IsUnlike id h s rows ei eh (ground arith),
)

module _ (p : Session → Bool) (f : Session → Session)
    (hash : (s : Session) → (f s).token_hash ≡ s.token_hash)
    (id : (s : Session) → (f s).id ≡ s.id) where
  if-IsUnlike :
      (b : Bool) (s r : Session)
      → (same r.token_hash s.token_hash ≡ false) × (same r.id s.id ≡ false)
      → (same (if b then f r else r).token_hash s.token_hash ≡ false)
        × (same (if b then f r else r).id s.id ≡ false)
  if-IsUnlike true s r h = (rw (hash r) h.0, rw (id r) h.1)
  if-IsUnlike false s r h = h

  update-IsUnlike :
      (s : Session) (rows : List Session) → IsUnlike s rows → IsUnlike s (update p f rows)
  update-IsUnlike s [] h = tt
  update-IsUnlike s (r ∷ rows) (h, hs) = (if-IsUnlike (p r) s r h, update-IsUnlike s rows hs)

  head-IsUnlike :
      (b : Bool) (s : Session) (rows : List Session)
      → IsUnlike s rows
      → IsUnlike (if b then f s else s) rows
  head-IsUnlike true s [] h = tt
  head-IsUnlike true s (r ∷ rows) (h, hs) =
      ((rw (hash s) h.0, rw (id s) h.1), head-IsUnlike true s rows hs)
  head-IsUnlike false s rows h = h

  pub update-Unlike : (rows : List Session) → Unlike rows → Unlike (update p f rows)
  update-Unlike [] h = tt
  update-Unlike (s ∷ rows) (h, hs) =
      (head-IsUnlike (p s) s _ (update-IsUnlike s rows h), update-Unlike rows hs)
