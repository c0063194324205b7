-- ===== src/Bus/Unlinked.antt =====
-- A data connection that is taken out leaves bindings and lists in agreement.
use libatbus_go.Base.{
  ℕ, ◌≡◌, refl, sym, ap, ◌∙◌, none, some, Bool, true, false, not, ◌&&◌, Bool-cases, inl, inr,
}
use libatbus_go.Base.{◌==◌, ==_iff}
use libatbus_go.Bus.Types.{Store, same_pointer, has, write_endpoint, set_connection_binding}
use libatbus_go.Bus.Endpoint.{without, members}
use libatbus_go.Bus.Members.{==-comm, has-members_without, distinct-members_without}
use libatbus_go.Bus.Consistent.{Consistent}

-- The store after a data connection is taken out.
abbrev pub unlinked : ℕ → ℕ → Store → Store
unlinked e c s =
    let ep = s.endpoint e in
    write_endpoint e (record ep { data_conn = without c ep.data_conn })
      (set_connection_binding c none s)

unlinked-bound :
    (e c e' x : ℕ) (s : Store)
    → Consistent s
    → (s.connection c).binding ≡ some e
    → same_pointer (some c) (s.endpoint e).ctrl_conn ≡ false
    → has x (members ((unlinked e c s).endpoint e'))
      ≡ same_pointer ((unlinked e c s).connection x).binding (some e')
unlinked-bound e c e' x s ok own not_ctrl =
    let ep = s.endpoint e in
    let less = has-members_without x c ep.ctrl_conn ep.data_conn (ok.once e) not_ctrl in
    elim (Bool-cases (e' == e)) [
      | inl he ↦
          let same : e' ≡ e = (==_iff e' e).0 he in
          elim (Bool-cases (x == c)) [
            | inl hx ↦
                rw (he, hx)
                  (less ∙ ap (λ b. has x (members ep) && not b) hx ∙ and_false (has x (members ep)))
            | inr hx ↦
                rw (he, hx)
                  (less
                    ∙ ap (λ b. has x (members ep) && not b) hx
                    ∙ and_true (has x (members ep))
                    ∙ ok.bound e x
                    ∙ ap (λ k. same_pointer (s.connection x).binding (some k)) (sym same))
          ]
      | inr he ↦ elim (Bool-cases (x == c)) [
        | inl hx ↦
            rw (he, hx)
              (ok.bound e' x
                ∙ ap (λ k. same_pointer (s.connection k).binding (some e')) ((==_iff x c).0 hx)
                ∙ ap (λ b. same_pointer b (some e')) own
                ∙ ==-comm e e'
                ∙ he)
        | inr hx ↦ rw (he, hx) (ok.bound e' x)
      ]
    ]
  where
    and_true : (b : Bool) → (b && true) ≡ b
    and_true true = refl
    and_true false = refl

    and_false : (b : Bool) → (b && false) ≡ false
    and_false true = refl
    and_false false = refl

pub unlinked-Consistent :
    (e c : ℕ) (s : Store)
    → Consistent s
    → (s.connection c).binding ≡ some e
    → same_pointer (some c) (s.endpoint e).ctrl_conn ≡ false
    → Consistent (unlinked e c s)
unlinked-Consistent e c s ok own not_ctrl =
    let ep = s.endpoint e in
    record {
      idle = λ e'. elim (Bool-cases (e' == e)) [
        | inl he ↦ rw he (ok.idle e)
        | inr he ↦ rw he (ok.idle e')
      ];
      bound = λ e' x. unlinked-bound e c e' x s ok own not_ctrl;
      once = λ e'. elim (Bool-cases (e' == e)) [
        | inl he ↦ rw he (distinct-members_without c ep.ctrl_conn ep.data_conn (ok.once e))
        | inr he ↦ rw he (ok.once e')
      ];
    }
