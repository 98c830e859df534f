-- ===== src/Inference/Metrics/Labels.antt =====
-- Labels of different series differ: a reader of the escaped text gets back what was written.
use my_tiny_network_library.Base.{
  ℕ, ◌≡◌, refl, sym, ap, subst, ◌∙◌, arith, false, [], ◌∷◌, ◌++◌, append_assoc, if◌then◌else◌, ◌==◌,
  ==_iff, Bytes, codes, drop, Bool-cases, inl, inr,
}
use my_tiny_network_library.Inference.Metrics.{escape_char, escape_label, labels}

-- A reader of Prometheus labels: the value in front of the closing quote, and what follows it.
mutual
  read_value : Bytes → Bytes × Bytes
  read_value [] = ([], [])
  read_value (ch ∷ text) =
      let (value, rest) = read_value text in
      let escaped = read_escaped text in
      if ch == b'"' then ([], text) else if ch == b'\\' then escaped else (ch ∷ value, rest)

  read_escaped : Bytes → Bytes × Bytes
  read_escaped [] = ([], [])
  read_escaped (ch ∷ text) =
      let (value, rest) = read_value text in ((if ch == b'n' then b'\n' else ch) ∷ value, rest)

-- what the reader makes of one character's text
abbrev Reads : Bytes → ℕ → Type 0
Reads text ch =
    read_value (escape_char ch ++ text) ≡ (ch ∷ (read_value text).0, (read_value text).1)

escape_char-plain :
    (ch : ℕ)
    → ((ch == b'\\') ≡ false)
    → ((ch == b'"') ≡ false)
    → ((ch == b'\n') ≡ false)
    → escape_char ch ≡ ch ∷ []
unfolding escape_char
escape_char-plain ch h k l = ground arith

read_value-plain :
    (ch : ℕ) (text : Bytes)
    → ((ch == b'\\') ≡ false)
    → ((ch == b'"') ≡ false)
    → read_value (ch ∷ text) ≡ (ch ∷ (read_value text).0, (read_value text).1)
unfolding read_value
read_value-plain ch text h k = ground arith

read_value-escape_char : (ch : ℕ) (text : Bytes) → Reads text ch
unfolding escape_char read_value read_escaped
read_value-escape_char ch text = elim (Bool-cases (ch == b'\\')) [
  | inl e ↦ subst (Reads text) (sym ((==_iff ch b'\\').0 e)) refl
  | inr slash ↦ elim (Bool-cases (ch == b'"')) [
    | inl e ↦ subst (Reads text) (sym ((==_iff ch b'"').0 e)) refl
    | inr quote ↦ elim (Bool-cases (ch == b'\n')) [
      | inl e ↦ subst (Reads text) (sym ((==_iff ch b'\n').0 e)) refl
      | inr line ↦
          ap (λ l. read_value (l ++ text)) (escape_char-plain ch slash quote line)
          ∙ read_value-plain ch text slash quote
    ]
  ]
]

read_value-escape_label :
    (value rest : Bytes) → read_value (escape_label value ++ b'"' ∷ rest) ≡ (value, rest)
unfolding escape_label read_value
read_value-escape_label [] rest = refl
read_value-escape_label (ch ∷ value) rest =
    ap read_value (append_assoc (escape_char ch) (escape_label value) (b'"' ∷ rest))
    ∙ read_value-escape_char ch (escape_label value ++ b'"' ∷ rest)
    ∙ ap (λ p. (ch ∷ p.0, p.1)) (read_value-escape_label value rest)

-- what follows the opening of a label that has this value and this rest
label_tail : Bytes → Bytes → Bytes
label_tail value rest = escape_label value ++ b'"' ∷ rest

label_tail-eq : (v w r t : Bytes) → label_tail v r ≡ label_tail w t → (v ≡ w) × (r ≡ t)
unfolding label_tail
label_tail-eq v w r t e =
    let both = sym (read_value-escape_label v r) ∙ ap read_value e ∙ read_value-escape_label w t in
    (ap (λ p. p.0) both, ap (λ p. p.1) both)

labels-tail :
    (model backend status : Bytes)
    → drop 7 (labels model backend status)
      ≡ label_tail model
          (codes ",backend=\"" ++ label_tail backend (codes ",status=\"" ++ label_tail status []))
unfolding labels label_tail
labels-tail model backend status = refl

-- Two series of the metrics have the same labels only if their model, backend and status are the same,
-- whatever quotes, backslashes and line ends these contain.
pub labels-labels :
    (model backend status model' backend' status' : Bytes)
    → labels model backend status ≡ labels model' backend' status'
    → (model ≡ model') × (backend ≡ backend') × (status ≡ status')
labels-labels model backend status model' backend' status' e =
    let (m, r) = label_tail-eq model model' _ _ (
      sym (labels-tail model backend status)
      ∙ ap (drop 7) e
      ∙ labels-tail model' backend' status') in
    let (b, t) = label_tail-eq backend backend' _ _ (ap (drop 10) r) in
    let (s, _) = label_tail-eq status status' _ _ (ap (drop 9) t) in (m, b, s)
