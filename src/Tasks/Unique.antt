-- ===== src/Tasks/Unique.antt =====
-- No two rows of the table collide on its unique indexes.
use carbon_contractors_com.Prelude.{
  ◌≡◌, refl, sym, ◌∙◌, false, List, [], ◌∷◌, ◌++◌, Option, none, some, String, arith, All, any,
  same, same_iff, Bool-cases, inl, inr,
}
use carbon_contractors_com.Schema.{TaskRecord}
use carbon_contractors_com.Tasks.Creation.{same_key, collides}

abbrev pub Unique : List TaskRecord → Type 0
Unique [] = Unit
Unique (t ∷ ts) = All (λ u. collides t u ≡ false) ts × Unique ts

-- Rows that the indexes do not tell apart.
pub record HasSameKeys (t u : TaskRecord) : Type 0 where
  pub ids : t.payment_request_id ≡ u.payment_request_id
  pub agents : t.from_agent_wallet ≡ u.from_agent_wallet
  pub keys : t.idempotency_key ≡ u.idempotency_key

collides-HasSameKeys :
    (t t' u u' : TaskRecord) → HasSameKeys t t' → HasSameKeys u u' → collides t u ≡ collides t' u'
unfolding collides
collides-HasSameKeys t t' u u' p q = rw (p.ids, p.agents, p.keys, q.ids, q.agents, q.keys) refl

same_comm : (s t : String) → same s t ≡ same t s
same_comm s t = elim (Bool-cases (same s t)) [
  | inl e ↦ rw ((same_iff s t).0 e) refl
  | inr e ↦ elim (Bool-cases (same t s)) [
    | inl e' ↦ rw ((same_iff t s).0 e') refl
    | inr e' ↦ e ∙ sym e'
  ]
]

same_key_comm : (j k : Option String) → same_key j k ≡ same_key k j
unfolding same_key
same_key_comm none none = refl
same_key_comm none (some k) = refl
same_key_comm (some j) none = refl
same_key_comm (some j) (some k) = same_comm j k

collides_comm : (t u : TaskRecord) → collides t u ≡ collides u t
unfolding collides
collides_comm t u =
    rw
      (
        same_comm t.payment_request_id u.payment_request_id,
        same_comm t.from_agent_wallet u.from_agent_wallet,
        same_key_comm t.idempotency_key u.idempotency_key,
      )
      refl

-- The rows of two tables, one by one.
abbrev pub Matched : List TaskRecord → List TaskRecord → Type 0
Matched [] [] = Unit
Matched (t ∷ ts) (u ∷ us) = HasSameKeys t u × Matched ts us
Matched [] (_ ∷ _) = ⊥
Matched (_ ∷ _) [] = ⊥

All-Matched :
    (t u : TaskRecord) (ts us : List TaskRecord)
    → HasSameKeys t u
    → Matched ts us
    → All (λ v. collides t v ≡ false) ts
    → All (λ v. collides u v ≡ false) us
All-Matched t u [] [] p m h = tt
All-Matched t u (v ∷ vs) (w ∷ ws) p (q, m) (h, hs) =
    (sym (collides-HasSameKeys t u v w p q) ∙ h, All-Matched t u vs ws p m hs)
All-Matched t u [] (w ∷ ws) p m h = elim m [ ]
All-Matched t u (v ∷ vs) [] p m h = elim m [ ]

pub Unique-Matched : (ts us : List TaskRecord) → Matched ts us → Unique ts → Unique us
Unique-Matched [] [] m h = tt
Unique-Matched (t ∷ ts) (u ∷ us) (p, m) (h, hs) =
    (All-Matched t u ts us p m h, Unique-Matched ts us m hs)
Unique-Matched [] (u ∷ us) m h = elim m [ ]
Unique-Matched (t ∷ ts) [] m h = elim m [ ]

All-append :
    (t row : TaskRecord) (ts : List TaskRecord)
    → collides row t ≡ false
    → All (λ u. collides t u ≡ false) ts
    → All (λ u. collides t u ≡ false) (ts ++ row ∷ [])
All-append t row [] e h = (collides_comm t row ∙ e, tt)
All-append t row (u ∷ us) e (h, hs) = (h, All-append t row us e hs)

-- An insert that the indexes allow keeps the table unique.
pub Unique-append :
    (ts : List TaskRecord) (row : TaskRecord)
    → any (collides row) ts ≡ false
    → Unique ts
    → Unique (ts ++ row ∷ [])
Unique-append [] row e h = (tt, tt)
Unique-append (t ∷ ts) row e (h, hs) =
    (All-append t row ts (ground arith) h, Unique-append ts row (ground arith) hs)
