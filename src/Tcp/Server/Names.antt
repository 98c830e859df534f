-- ===== src/Tcp/Server/Names.antt =====
-- What the server keeps under the names of connections.
use my_tiny_network_library.Base.{
  ℕ, suc, ◌+◌, ◌%◌, ◌^◌, ◌<◌, ◌≡◌, ◌≢◌, refl, sym, ap, ◌∙◌, subst, arith, Bool, true, false, List,
  [], ◌∷◌, ◌++◌, Option, none, some, Bytes, equal, equal_iff, Bool-cases, inl, inr, All, All-append,
}
use my_tiny_network_library.Tcp.Pool.{Pool, get_next_loop}
use my_tiny_network_library.Tcp.Server.{
  Handle, Server, runs_established, queues_destroyed, conn_name, put, erase, accept, new_connection,
  remove_connection_in_loop,
}
use my_tiny_network_library.Tcp.Server.Differs.{Fits, conn_name-differs}

module _ {Loop : Type 0} where
  -- what is kept under a name
  abbrev kept_by : Bool → Handle Loop → Option (Handle Loop) → Option (Handle Loop)
  kept_by true conn more = some conn
  kept_by false conn more = more

  abbrev pub kept : Bytes → List (Bytes × Handle Loop) → Option (Handle Loop)
  kept name [] = none
  kept name ((key, conn) ∷ entries) = kept_by (equal name key) conn (kept name entries)

  kept-other :
      (name key : Bytes) (conn : Handle Loop) (entries : List (Bytes × Handle Loop))
      → name ≢ key
      → kept name ((key, conn) ∷ entries) ≡ kept name entries
  kept-other name key conn entries h = elim (Bool-cases (equal name key)) [
    | inl e ↦ absurd (h ((equal_iff name key).0 e))
    | inr e ↦ ap (λ b. kept_by b conn (kept name entries)) e
  ]

  -- An entry of the map: a connection under its own name, which was made from an earlier number.
  pub record IsNamed (name ip_port : Bytes) (next : ℕ) (entry : Bytes × Handle Loop) : Type 0 where
    pub own_name : entry.0 ≡ entry.1.name
    pub id : ℕ
    pub earlier : id < next
    pub fits : Fits ip_port id
    pub made : entry.0 ≡ conn_name name ip_port id

  abbrev pub IsServer : Server Loop → Type 0
  IsServer s = All (IsNamed s.name s.ip_port s.next_conn_id) s.connections

  other_name :
      (name ip_port : Bytes) (next : ℕ) (entry : Bytes × Handle Loop)
      → Fits ip_port next
      → next < 2 ^ 31
      → IsNamed name ip_port next entry
      → equal (conn_name name ip_port next) entry.0 ≡ false
  other_name name ip_port next entry fits small h =
      elim (Bool-cases (equal (conn_name name ip_port next) entry.0)) [
        | inl e ↦
            let same =
              conn_name-differs name ip_port next h.id fits h.fits small
                (omega (arith, h.earlier, small)) ((equal_iff _ _).0 e ∙ h.made) in
            absurd (omega (arith, same, h.earlier))
        | inr e ↦ e
      ]

  put-fresh :
      (name ip_port : Bytes) (next : ℕ) (conn : Handle Loop) (entries : List (Bytes × Handle Loop))
      → Fits ip_port next
      → next < 2 ^ 31
      → All (IsNamed name ip_port next) entries
      → put (conn_name name ip_port next) conn entries
        ≡ entries ++ (conn_name name ip_port next, conn) ∷ []
  unfolding put
  put-fresh name ip_port next conn [] fits small h = refl
  put-fresh name ip_port next conn ((key, old) ∷ entries) fits small h =
      rw
        (
          other_name name ip_port next (key, old) fits small h.0,
          put-fresh name ip_port next conn entries fits small h.1,
        )
        refl

  later :
      (name ip_port : Bytes) (next : ℕ) (entries : List (Bytes × Handle Loop))
      → All (IsNamed name ip_port next) entries
      → All (IsNamed name ip_port (suc next)) entries
  later name ip_port next [] h = h
  later name ip_port next (entry ∷ entries) h = (
    record {
      own_name = h.0.own_name;
      id = h.0.id;
      earlier = omega (arith, h.0.earlier);
      fits = h.0.fits;
      made = h.0.made;
    },
    later name ip_port next entries h.1,
  )

  -- `newConnection` never puts a connection in the place of another one: when the pool has a loop for
  -- it, its number fits into the name and the `int` that counts them does not overflow, the new
  -- connection stands behind those that were there, under a name of its own, and every connection is
  -- still kept under its own name.
  pub new_connection-IsServer :
      (sockfd : ℕ) (s : Server Loop) (loop : Loop) (pool : Pool Loop)
      → IsServer s
      → Fits s.ip_port s.next_conn_id
      → suc s.next_conn_id < 2 ^ 31
      → get_next_loop s.pool ≡ some (loop, pool)
      → let conn : Handle Loop = record {
        loop = loop;
        name = conn_name s.name s.ip_port s.next_conn_id;
        sockfd = sockfd;
      } in
        (t : Server Loop) × (new_connection sockfd s ≡ some (t, runs_established conn ∷ []))
        × (t.connections ≡ s.connections ++ (conn.name, conn) ∷ [])
        × IsServer t
  unfolding new_connection
  new_connection-IsServer sockfd s loop pool h fits small e =
      let conn : Handle Loop = record {
        loop = loop;
        name = conn_name s.name s.ip_port s.next_conn_id;
        sockfd = sockfd;
      } in
      let there =
        put-fresh s.name s.ip_port s.next_conn_id conn s.connections fits (omega (arith, small))
          h in
      let counted : suc s.next_conn_id ≡ (s.next_conn_id + 1) % 2 ^ 32 = omega (arith, small) in
      (
        _,
        ap (accept sockfd s) e,
        there,
        subst (All (IsNamed s.name s.ip_port ((s.next_conn_id + 1) % 2 ^ 32))) (sym there) (
            subst (λ n. All (IsNamed s.name s.ip_port n) (s.connections ++ (conn.name, conn) ∷ []))
              counted
              (All-append _ _ _ (later s.name s.ip_port s.next_conn_id s.connections h) (
                record {
                  own_name = refl;
                  id = s.next_conn_id;
                  earlier = omega arith;
                  fits = fits;
                  made = refl;
                },
                tt,
              ))),
      )

  erase-here :
      (gone key : Bytes) (conn : Handle Loop) (entries : List (Bytes × Handle Loop))
      → equal gone key ≡ true
      → erase gone ((key, conn) ∷ entries) ≡ erase gone entries
  unfolding erase
  erase-here gone key conn entries e = rw e refl

  erase-other :
      (gone key : Bytes) (conn : Handle Loop) (entries : List (Bytes × Handle Loop))
      → equal gone key ≡ false
      → erase gone ((key, conn) ∷ entries) ≡ (key, conn) ∷ erase gone entries
  unfolding erase
  erase-other gone key conn entries e = rw e refl

  -- the entries that `erase` leaves: those of the others, under their names
  pub record Erased (name ip_port gone : Bytes) (next : ℕ)
      (before after : List (Bytes × Handle Loop)) : Type 0 where
    pub named : All (IsNamed name ip_port next) after
    pub removed : All (λ entry. entry.1.name ≢ gone) after
    pub others : (key : Bytes) → key ≢ gone → kept key after ≡ kept key before

  erase-Erased :
      (name ip_port gone : Bytes) (next : ℕ) (entries : List (Bytes × Handle Loop))
      → All (IsNamed name ip_port next) entries
      → Erased name ip_port gone next entries (erase gone entries)
  unfolding erase
  erase-Erased name ip_port gone next [] h = record {
    named = h;
    removed = tt;
    others = λ key k. refl;
  }
  erase-Erased name ip_port gone next ((key, conn) ∷ entries) h =
      let rest = erase-Erased name ip_port gone next entries h.1 in
      elim (Bool-cases (equal gone key)) [
        | inl e ↦
            subst (Erased name ip_port gone next ((key, conn) ∷ entries))
              (sym (erase-here gone key conn entries e))
              (record {
                named = rest.named;
                removed = rest.removed;
                others = λ asked k.
                    rest.others asked k
                    ∙ sym (
                        kept-other asked key conn entries
                          (λ same. k (same ∙ sym ((equal_iff gone key).0 e))));
              })
        | inr e ↦
            subst (Erased name ip_port gone next ((key, conn) ∷ entries))
              (sym (erase-other gone key conn entries e))
              (record {
                named = (h.0, rest.named);
                removed = (
                  λ same. absurd (cc (e, (equal_iff gone key).1 (sym same ∙ sym h.0.own_name))),
                  rest.removed,
                );
                others = λ asked k. ap (kept_by (equal asked key) conn) (rest.others asked k);
              })
      ]

  -- `removeConnectionInLoop` takes exactly the connection of that name out of the map: none of that
  -- name is left, what is kept under any other name stays, and the destruction of the connection is
  -- queued for its loop. Every connection is still kept under its own name.
  pub remove_connection_in_loop-Erased :
      (conn : Handle Loop) (s : Server Loop)
      → IsServer s
      → let (t, effects) = remove_connection_in_loop conn s in
        Erased s.name s.ip_port conn.name s.next_conn_id s.connections t.connections
        × IsServer t
        × (effects ≡ queues_destroyed conn ∷ [])
  unfolding remove_connection_in_loop
  remove_connection_in_loop-Erased conn s h =
      let gone = erase-Erased s.name s.ip_port conn.name s.next_conn_id s.connections h in
      (gone, gone.named, refl)
