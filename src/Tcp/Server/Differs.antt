-- ===== src/Tcp/Server/Differs.antt =====
-- Two connections of a server have two names.
use my_tiny_network_library.Base.{
  ℕ, ◌<◌, ◌^◌, ltb, true, refl, ◌+◌, ◌≤◌, ◌≡◌, sym, ap, ◌∙◌, arith, [], ◌∷◌, ◌++◌, Bytes, codes,
  length, length-append, take, take-all, decimal, number_from, number_from-decimal,
}
use my_tiny_network_library.Tcp.Server.{conn_name}

-- the number of a connection fits into its name
abbrev pub Fits : Bytes → ℕ → Type 0
Fits ip_port id = length ip_port + length (decimal id) ≤ 61

append-cancels : (front a b : Bytes) → front ++ a ≡ front ++ b → a ≡ b
append-cancels [] a b e = e
append-cancels (x ∷ front) a b e = append-cancels front a b (cc e)

length-text :
    (ip_port digits : Bytes)
    → length (codes "-" ++ (ip_port ++ (codes "#" ++ digits))) ≡ length ip_port + length digits + 2
length-text ip_port digits = let inner = length-append ip_port (35 ∷ digits) in omega (arith, inner)

whole_text :
    (ip_port digits : Bytes)
    → length ip_port + length digits ≤ 61
    → take 63 (codes "-" ++ (ip_port ++ (codes "#" ++ digits)))
      ≡ codes "-" ++ (ip_port ++ (codes "#" ++ digits))
whole_text ip_port digits h = take-all 63 _ (omega (arith, h, length-text ip_port digits))

same_digits :
    (ip_port a b : Bytes)
    → codes "-" ++ (ip_port ++ (codes "#" ++ a)) ≡ codes "-" ++ (ip_port ++ (codes "#" ++ b))
    → a ≡ b
same_digits ip_port a b e = append-cancels (codes "#") a b (
    append-cancels ip_port (codes "#" ++ a) (codes "#" ++ b)
      (append-cancels (codes "-") (ip_port ++ (codes "#" ++ a)) (ip_port ++ (codes "#" ++ b)) e))

-- a number that is not negative stands in the name with its digits
conn_name-decimal :
    (name ip_port : Bytes) (id : ℕ)
    → id < 2 ^ 31
    → conn_name name ip_port id
      ≡ name ++ take 63 (codes "-" ++ (ip_port ++ (codes "#" ++ decimal id)))
unfolding conn_name
conn_name-decimal name ip_port id small =
    let fits : ltb id (2 ^ 31) ≡ true = ground (arith, small) in rw fits refl

-- two numbers give two names
pub conn_name-differs :
    (name ip_port : Bytes) (a b : ℕ)
    → Fits ip_port a
    → Fits ip_port b
    → a < 2 ^ 31
    → b < 2 ^ 31
    → conn_name name ip_port a ≡ conn_name name ip_port b
    → a ≡ b
conn_name-differs name ip_port a b h k small_a small_b e' =
    let e =
      sym (conn_name-decimal name ip_port a small_a)
      ∙ e'
      ∙ conn_name-decimal name ip_port b small_b in
    let same =
      sym (whole_text ip_port (decimal a) h)
      ∙ append-cancels name (take 63 (codes "-" ++ (ip_port ++ (codes "#" ++ decimal a))))
          (take 63 (codes "-" ++ (ip_port ++ (codes "#" ++ decimal b)))) e
      ∙ whole_text ip_port (decimal b) k in
    sym (number_from-decimal a)
    ∙ ap (number_from 0) (same_digits ip_port (decimal a) (decimal b) same)
    ∙ number_from-decimal b
