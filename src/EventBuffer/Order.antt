-- ===== src/EventBuffer/Order.antt =====
-- The sequence numbers of backend/event_store.py, and what `latest` answers.
use omnitrack_ai_platform.Prelude.{
  ℕ, zero, suc, ◌+◌, ◌-◌, ◌≤◌, ◌<◌, ◌≡◌, refl, sym, ap, ◌∙◌, subst, inl, inr, Bool, Option, none,
  some, List, [], ◌∷◌, ◌++◌, arith, leb, Bool-cases, length, keep, take, drop, last_n, All,
  length-append, length-drop, length-take,
}
use mathlib.Core.List.{reverse, reverse-cons}
use omnitrack_ai_platform.EventBuffer.{Record, Stored, latest, limited, new_buffer}
use omnitrack_ai_platform.EventBuffer.Retention.{
  History, Write, appends, clears, extends, note, notes, records-history, stamped, writes,
}

stamped-append :
    (n : ℕ) (rs ts : List Record)
    → stamped n (rs ++ ts) ≡ stamped n rs ++ stamped (n + length rs) ts
unfolding stamped
stamped-append n [] ts = let e : n + 0 ≡ n = omega arith in rw e
stamped-append n (r ∷ rs) ts =
    let e : n + suc (length rs) ≡ n + 1 + length rs = omega arith in
    rw e (ap (◌∷◌ (record { record_of = r; seq = n + 1 })) (stamped-append (n + 1) rs ts))

drop-stamped :
    (k n : ℕ) (rs : List Record)
    → k ≤ length rs
    → drop k (stamped n rs) ≡ stamped (n + k) (drop k rs)
unfolding stamped
drop-stamped zero n rs h = let e : n + 0 ≡ n = omega arith in rw e
drop-stamped (suc k) n [] h = absurd (omega arith)
drop-stamped (suc k) n (r ∷ rs) h =
    let e : n + suc k ≡ n + 1 + k = omega arith in rw e (drop-stamped k (n + 1) rs (omega arith))

length-stamped : (n : ℕ) (rs : List Record) → length (stamped n rs) ≡ length rs
unfolding stamped
length-stamped n [] = refl
length-stamped n (r ∷ rs) = ap suc (length-stamped (n + 1) rs)

stamped_none : (n : ℕ) → [] ≡ stamped n []
unfolding stamped
stamped_none n = refl

-- The records of a history since the last `clear`, and the number that stood before them.
IsStamped : History → Type 0
IsStamped h = (n : ℕ) × (rs : List Record) × (h.kept ≡ stamped n rs) × (n + length rs ≡ h.total)

note-IsStamped : (h : History) (w : Write) → IsStamped h → IsStamped (note h w)
unfolding IsStamped note
note-IsStamped h (appends r) (n, rs, e, t) = (
  n,
  rs ++ r ∷ [],
  rw (e, ← t) (sym (stamped-append n rs (r ∷ []))),
  omega (arith, length-append rs (r ∷ [])),
)
note-IsStamped h (extends ts) (n, rs, e, t) =
    (n, rs ++ ts, rw (e, ← t) (sym (stamped-append n rs ts)), omega (arith, length-append rs ts))
note-IsStamped h clears (n, rs, e, t) = (h.total, [], stamped_none h.total, omega arith)

notes-IsStamped : (h : History) (ws : List Write) → IsStamped h → IsStamped (notes h ws)
unfolding notes
notes-IsStamped h [] s = s
notes-IsStamped h (w ∷ ws) s = notes-IsStamped (note h w) ws (note-IsStamped h w s)

-- After any writes to a new buffer of positive capacity, the retained records carry consecutive
-- numbers, the newest one the number of records ever appended, and there are at most `capacity`.
pub records-stamped :
    (capacity : ℕ) (ws : List Write)
    → let b = writes (new_buffer capacity) ws in
      (n : ℕ) × (rs : List Record) × (b.records ≡ stamped n rs)
      × (n + length rs ≡ b.seq)
      × (length rs ≤ capacity)
unfolding IsStamped
records-stamped capacity ws =
    let (window, numbered) = records-history capacity ws in
    let (n, rs, e, t) =
      notes-IsStamped (record { kept = []; total = 0 }) ws (0, [], stamped_none 0, omega arith) in
    let k = length rs - capacity in
    (
      n + k,
      drop k rs,
      window
          ∙ ap (last_n capacity) e
          ∙ ap (λ m. drop (m - capacity) (stamped n rs)) (length-stamped n rs)
          ∙ drop-stamped k n rs (omega arith),
      omega (arith, length-drop k rs),
      omega (arith, length-drop k rs),
    )

-- Newest first: every record was appended after those behind it.
abbrev pub Descending : List Stored → Type 0
Descending [] = Unit {0}
Descending (x ∷ xs) = All (λ y. y.seq < x.seq) xs × Descending xs

All-keep :
    (n : ℕ) (p : Stored → Bool) (xs : List Stored)
    → All (λ y. y.seq < n) xs
    → All (λ y. y.seq < n) (keep p xs)
All-keep n p [] h = tt
All-keep n p (x ∷ xs) h = ground (arith, All-keep n p xs h.1)

keep-Descending : (p : Stored → Bool) (xs : List Stored) → Descending xs → Descending (keep p xs)
keep-Descending p [] h = tt
keep-Descending p (x ∷ xs) h = ground (arith, keep-Descending p xs h.1, All-keep x.seq p xs h.0)

All-take : (n k : ℕ) (xs : List Stored) → All (λ y. y.seq < n) xs → All (λ y. y.seq < n) (take k xs)
All-take n zero xs h = tt
All-take n (suc k) [] h = tt
All-take n (suc k) (x ∷ xs) h = (h.0, All-take n k xs h.1)

take-Descending : (k : ℕ) (xs : List Stored) → Descending xs → Descending (take k xs)
take-Descending zero xs h = tt
take-Descending (suc k) [] h = tt
take-Descending (suc k) (x ∷ xs) h = (All-take x.seq k xs h.0, take-Descending k xs h.1)

snoc-All :
    (n : ℕ) (xs : List Stored) (x : Stored)
    → All (λ y. y.seq < n) xs
    → x.seq < n
    → All (λ y. y.seq < n) (xs ++ x ∷ [])
snoc-All n [] x h lt = (lt, tt)
snoc-All n (y ∷ xs) x h lt = (h.0, snoc-All n xs x h.1 lt)

snoc-Descending :
    (xs : List Stored) (x : Stored)
    → Descending xs
    → All (λ y. x.seq < y.seq) xs
    → Descending (xs ++ x ∷ [])
snoc-Descending [] x d h = (tt, tt)
snoc-Descending (y ∷ xs) x d h = (snoc-All y.seq xs x d.0 h.0, snoc-Descending xs x d.1 h.1)

above-append :
    (n : ℕ) (xs ys : List Stored)
    → All (λ y. n < y.seq) xs
    → All (λ y. n < y.seq) ys
    → All (λ y. n < y.seq) (xs ++ ys)
above-append n [] ys h k = k
above-append n (x ∷ xs) ys h k = (h.0, above-append n xs ys h.1 k)

above-reverse-stamped :
    (m n : ℕ) (rs : List Record) → m ≤ n → All (λ y. m < y.seq) (reverse (stamped n rs))
unfolding stamped
above-reverse-stamped m n [] h = tt
above-reverse-stamped m n (r ∷ rs) h = rw reverse-cons (
    above-append m (reverse (stamped (n + 1) rs)) (record { record_of = r; seq = n + 1 } ∷ [])
      (above-reverse-stamped m (n + 1) rs (omega arith)) (omega arith, tt))

reverse-stamped-Descending : (n : ℕ) (rs : List Record) → Descending (reverse (stamped n rs))
unfolding stamped
reverse-stamped-Descending n [] = tt
reverse-stamped-Descending n (r ∷ rs) = rw reverse-cons (
    snoc-Descending (reverse (stamped (n + 1) rs)) (record { record_of = r; seq = n + 1 })
      (reverse-stamped-Descending (n + 1) rs)
      (above-reverse-stamped (n + 1) (n + 1) rs (omega arith)))

limited-Descending :
    (limit : Option ℕ) (xs : List Stored) → Descending xs → Descending (limited limit xs)
unfolding limited
limited-Descending none xs h = h
limited-Descending (some k) xs h = elim (Bool-cases (leb k 0)) [
  | inl e ↦ rw e tt
  | inr e ↦ rw e (take-Descending k xs h)
]

length-limited : (k : ℕ) (xs : List Stored) → length (limited (some k) xs) ≤ k
unfolding limited
length-limited k xs = ground (arith, length-take k xs)

-- Whatever is written to a new buffer, `latest` answers newest first for every filter and limit,
-- and with at most `limit` records where a limit is given.
latest_order :
    (capacity : ℕ) (ws : List Write) (limit event_type severity : Option ℕ)
    → let b = writes (new_buffer capacity) ws in
      Descending (latest b limit event_type severity)
      × ((k : ℕ) → length (latest b (some k) event_type severity) ≤ k)
unfolding latest
latest_order capacity ws limit event_type severity =
    let (n, rs, e, _, _) = records-stamped capacity ws in
    (
      limited-Descending limit _ (
          keep-Descending _ _ (
            keep-Descending _ _
              (subst (λ x. Descending (reverse x)) (sym e) (reverse-stamped-Descending n rs)))),
      λ k. length-limited k _,
    )
