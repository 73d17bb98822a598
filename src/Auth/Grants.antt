-- ===== src/Auth/Grants.antt =====
-- What the sessions promise, without a table: a token's hash leads to a grant, or to nothing. And
-- how the table is such a map.
use carbon_contractors_com.Prelude.{
  ℕ, ◌≡◌, refl, sym, subst, Bool, true, false, not, Option, none, some, List, [], ◌∷◌, String, same,
  same_iff, same_refl, if◌then◌else◌, first, update, All, arith, Bool-cases, found_here,
  found_there, inl, inr,
}
use carbon_contractors_com.Auth.{Session, is_null}
use carbon_contractors_com.Auth.Sessions.{has_hash, has_session_id, slide_row, revoke_row}

pub record Grant : Type 0 where
  pub session_id : String
  pub wallet : String
  pub scopes : List String
  pub last_used_at : ℕ
  pub expires_at : ℕ

abbrev pub Grants : Type 0
Grants = String → Option Grant

unfoldable pub grant_of : Session → Grant
grant_of s = record {
  session_id = s.id;
  wallet = s.wallet;
  scopes = s.scopes;
  last_used_at = s.last_used_at;
  expires_at = s.expires_at;
}

unfoldable pub grant_if : Option Session → Option Grant
unfolding grant_of
grant_if none = none
grant_if (some s) = if is_null s.revoked_at then some (grant_of s) else none

-- The map that a table stands for.
unfoldable pub grants : List Session → Grants
unfolding grant_if has_hash
grants rows h = grant_if (first (has_hash h) rows)

abbrev pub put : String → Grant → Grants → Grants
put h g f j = if same h j then some g else f j

abbrev pub keep : (Grant → Bool) → Option Grant → Option Grant
keep q none = none
keep q (some g) = if q g then some g else none

-- No two rows share a hash or an id.
abbrev pub IsUnlike : Session → List Session → Type 0
IsUnlike s rows =
    All (λ r. (same r.token_hash s.token_hash ≡ false) × (same r.id s.id ≡ false)) rows

abbrev pub Unlike : List Session → Type 0
Unlike [] = Unit
Unlike (s ∷ rows) = IsUnlike s rows × Unlike rows

pub grants-cons :
    (s : Session) (rows : List Session) (h : String)
    → is_null s.revoked_at ≡ true
    → grants (s ∷ rows) h ≡ put s.token_hash (grant_of s) (grants rows) h
unfolding grants
grants-cons s rows h e = ground arith

grants-skip :
    (s : Session) (rows : List Session) (h : String)
    → grants (s ∷ rows) h ≡ (if same s.token_hash h then grant_if (some s) else grants rows h)
unfolding grants
grants-skip s rows h = ground arith

slide-other :
    (i : String) (last next : ℕ) (rows : List Session)
    → All (λ r. same r.id i ≡ false) rows
    → update (has_session_id i) (slide_row last next) rows ≡ rows
unfolding has_session_id
slide-other i last next [] h = refl
slide-other i last next (r ∷ rows) (h, hs) = ground (arith, slide-other i last next rows hs)

ids_of :
    (s : Session) (rows : List Session) → IsUnlike s rows → All (λ r. same r.id s.id ≡ false) rows
ids_of s [] h = tt
ids_of s (r ∷ rows) ((_, h), hs) = (h, ids_of s rows hs)

found-unlike :
    (h : String) (s x : Session) (rows : List Session)
    → first (has_hash h) rows ≡ some s
    → IsUnlike x rows
    → (same s.token_hash x.token_hash ≡ false) × (same s.id x.id ≡ false)
unfolding has_hash
found-unlike h s x [] e u = cc
found-unlike h s x (r ∷ rows) e (u, us) = elim (Bool-cases (same r.token_hash h)) [
  | inl here ↦ let f = found_here r s _ (same r.token_hash h) here e in rw (← f) u
  | inr there ↦ found-unlike h s x rows (found_there r s _ (same r.token_hash h) there e) us
]

slide-here :
    (h : String) (s : Session) (last next : ℕ) (rows : List Session) (j : String)
    → same s.token_hash h ≡ true
    → is_null s.revoked_at ≡ true
    → IsUnlike s rows
    → grants (update (has_session_id s.id) (slide_row last next) (s ∷ rows)) j
      ≡ put h (grant_of (slide_row last next s)) (grants (s ∷ rows)) j
unfolding has_session_id slide_row grant_if
slide-here h s last next rows j here live u =
    let hh = (same_iff s.token_hash h).0 here in
    rw (same_refl s.id, slide-other s.id last next rows (ids_of s rows u), ← hh)
      (ground (arith, grants-skip (slide_row last next s) rows j, grants-skip s rows j))

slide-there :
    (h : String) (s r : Session) (last next : ℕ) (rows : List Session) (j : String)
    → same r.token_hash h ≡ false
    → same s.id r.id ≡ false
    → grants (update (has_session_id s.id) (slide_row last next) rows) j
      ≡ put h (grant_of (slide_row last next s)) (grants rows) j
    → grants (update (has_session_id s.id) (slide_row last next) (r ∷ rows)) j
      ≡ put h (grant_of (slide_row last next s)) (grants (r ∷ rows)) j
unfolding has_session_id
slide-there h s r last next rows j there apart ih = ground (
  arith,
  same_iff s.id r.id,
  same_iff r.id s.id,
  same_iff r.token_hash j,
  same_iff h j,
  same_iff r.token_hash h,
  grants-skip r rows j,
  grants-skip r (update (has_session_id s.id) (slide_row last next) rows) j,
)

-- The slide of the row of a hash, found among the others.
pub grants-slide :
    (h : String) (s : Session) (last next : ℕ) (rows : List Session) (j : String)
    → Unlike rows
    → is_null s.revoked_at ≡ true
    → first (has_hash h) rows ≡ some s
    → grants (update (has_session_id s.id) (slide_row last next) rows) j
      ≡ put h (grant_of (slide_row last next s)) (grants rows) j
unfolding has_hash
grants-slide h s last next [] j u live e = cc
grants-slide h s last next (r ∷ rows) j (u, us) live e = elim (Bool-cases (same r.token_hash h)) [
  | inl here ↦
      let f : r ≡ s = found_here r s _ (same r.token_hash h) here e in
      subst
        (λ x.
          grants (update (has_session_id s.id) (slide_row last next) (x ∷ rows)) j
          ≡ put h (grant_of (slide_row last next s)) (grants (x ∷ rows)) j)
        (sym f) (slide-here h s last next rows j (rw (← f) here) live (rw (← f) u))
  | inr there ↦
      let found = found_there r s _ (same r.token_hash h) there e in
      let (apart_hash, apart_id) = found-unlike h s r rows found u in
      let ih = grants-slide h s last next rows j us live found in
      slide-there h s r last next rows j there apart_id ih
]

revoke-step :
    (p : Session → Bool) (q : Grant → Bool) (now : ℕ) (s : Session) (rows : List Session)
    (j : String) (b : Bool)
    → p s ≡ b
    → (is_null s.revoked_at ≡ true → p s ≡ not (q (grant_of s)))
    → grants (update p (revoke_row now) rows) j ≡ keep q (grants rows j)
    → grants (update p (revoke_row now) (s ∷ rows)) j ≡ keep q (grants (s ∷ rows) j)
unfolding grant_if revoke_row
revoke-step p q now s rows j b e agree ih = ground (
  arith,
  grants-skip s rows j,
  grants-skip s (update p (revoke_row now) rows) j,
  grants-skip (revoke_row now s) (update p (revoke_row now) rows) j,
)

-- A revocation of the rows that pass a test drops the grants that pass it.
pub grants-revoke :
    (p : Session → Bool) (q : Grant → Bool) (now : ℕ) (rows : List Session) (j : String)
    → ((s : Session) → is_null s.revoked_at ≡ true → p s ≡ not (q (grant_of s)))
    → grants (update p (revoke_row now) rows) j ≡ keep q (grants rows j)
unfolding grants has_hash grant_if revoke_row
grants-revoke p q now [] j agree = refl
grants-revoke p q now (s ∷ rows) j agree =
    revoke-step p q now s rows j (p s) refl (agree s) (grants-revoke p q now rows j agree)
