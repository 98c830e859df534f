-- ===== src/Timer/Order.antt =====
-- The entries of a timer queue stay in order, and those that are due come out.
use my_tiny_network_library.Base.{
  ◌≡◌, refl, ap, arith, true, false, List, [], ◌∷◌, ◌++◌, All, All-map, Bool-cases, inl, inr,
}
use my_tiny_network_library.Timer.{Entry, before, set_insert, split_at}

before_trans : (d e f : Entry) → before d e ≡ true → before e f ≡ true → before d f ≡ true
before_trans (t, p) (u, q) (v, r) h k = ground arith

-- each entry is before all that follow it
abbrev pub InOrder : List Entry → Type 0
InOrder [] = Unit
InOrder (d ∷ entries) = All (λ e. before d e ≡ true) entries × InOrder entries

pub set_insert-All :
    (P : Entry → Type 0) (e : Entry) (entries : List Entry)
    → P e
    → All P entries
    → All P (set_insert e entries)
unfolding set_insert
set_insert-All P e [] h k = (h, tt)
set_insert-All P e (d ∷ entries) h k = elim (Bool-cases (before e d)) [
  | inl b ↦ rw b (h, k)
  | inr b ↦ elim (Bool-cases (before d e)) [
    | inl a ↦ rw (b, a) (k.0, set_insert-All P e entries h k.1)
    | inr a ↦ rw (b, a) k
  ]
]

-- `set_insert` keeps the entries in order.
pub set_insert-InOrder :
    (e : Entry) (entries : List Entry) → InOrder entries → InOrder (set_insert e entries)
unfolding set_insert
set_insert-InOrder e [] h = (tt, tt)
set_insert-InOrder e (d ∷ entries) h = elim (Bool-cases (before e d)) [
  | inl b ↦ rw b ((b, All-map _ _ (λ f k. before_trans e d f b k) entries h.0), h)
  | inr b ↦ elim (Bool-cases (before d e)) [
    | inl a ↦ rw (b, a) (set_insert-All _ e entries a h.0, set_insert-InOrder e entries h.1)
    | inr a ↦ rw (b, a) h
  ]
]

-- the two parts of a split
pub record Split (sentry : Entry) (entries : List Entry) (parts : List Entry × List Entry)
    : Type 0 where
  pub whole : parts.0 ++ parts.1 ≡ entries
  pub due : All (λ e. before e sentry ≡ true) parts.0
  pub later : All (λ e. before e sentry ≡ false) parts.1
  pub ordered : InOrder parts.1

not_before :
    (d e sentry : Entry) → before d sentry ≡ false → before d e ≡ true → before e sentry ≡ false
not_before (t, p) (u, q) (v, r) h k = ground arith

pub split_at-Split :
    (sentry : Entry) (entries : List Entry)
    → InOrder entries
    → Split sentry entries (split_at sentry entries)
unfolding split_at
split_at-Split sentry [] h = record { whole = refl; due = tt; later = tt; ordered = tt }
split_at-Split sentry (d ∷ entries) h = elim (Bool-cases (before d sentry)) [
  | inl b ↦
      let s = split_at-Split sentry entries h.1 in
      rw b (record {
        whole = ap (λ l. d ∷ l) s.whole;
        due = (b, s.due);
        later = s.later;
        ordered = s.ordered;
      })
  | inr b ↦ rw b (record {
    whole = refl;
    due = tt;
    later = (b, All-map _ _ (λ e k. not_before d e sentry b k) entries h.0);
    ordered = h;
  })
]
