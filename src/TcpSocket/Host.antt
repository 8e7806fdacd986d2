-- ===== src/TcpSocket/Host.antt =====
-- src/TcpSocket.cpp, hostNameToIp: the resolver and the printing of an address are parameters.
use ucxx.Base.{
  ℕ, ◌≡◌, ◌≢◌, refl, List, [], ◌∷◌, ◌++◌, Option, none, some, if◌then◌else◌, ◌==◌, All, arith, ap,
  sym, ◌∙◌, append_assoc, Bool-cases, inl, inr,
}

-- A C string in a buffer.
abbrev pub c_string : List ℕ → List ℕ
c_string [] = []
c_string (c ∷ cs) = if c == 0 then [] else c ∷ c_string cs

module _ {Address : Type 0} (get_host_by_name : List ℕ → Option (List Address))
    (inet_ntoa : Address → List ℕ) where
  -- The loop over h_addr_list, which returns in its first round.
  unfoldable pub first_address : List Address → List ℕ
  first_address [] = []
  first_address (a ∷ addresses) = inet_ntoa a

  unfoldable pub host_name_to_ip : List ℕ → List ℕ
  host_name_to_ip host_name =
      let host = host_name ++ 0 ∷ [] in
      elim (get_host_by_name (c_string host)) [ none ↦ [] | some list ↦ first_address list ]

  -- The copy of the name ends where the name ends, or at the first character 0 in it: what follows
  -- that is not resolved.
  pub host_name_to_ip_lem :
      (name rest : List ℕ)
      → All (λ c. c ≢ 0) name
      → (host_name_to_ip name
          ≡ elim (get_host_by_name name) [ none ↦ [] | some list ↦ first_address list ])
        × (host_name_to_ip (name ++ 0 ∷ rest) ≡ host_name_to_ip name)
  unfolding host_name_to_ip
  host_name_to_ip_lem name rest ok = (
    ap (λ (n : List ℕ). elim (get_host_by_name n) [ none ↦ [] | some list ↦ first_address list ])
        (ends name [] ok),
    ap (λ (n : List ℕ). elim (get_host_by_name n) [ none ↦ [] | some list ↦ first_address list ])
        (ap c_string (append_assoc name (0 ∷ rest) (0 ∷ []))
          ∙ ends name (rest ++ 0 ∷ []) ok
          ∙ sym (ends name [] ok)),
  )
    where
      ends : (name rest : List ℕ) → All (λ c. c ≢ 0) name → c_string (name ++ 0 ∷ rest) ≡ name
      ends [] rest ok = refl
      ends (c ∷ name) rest (here, later) = elim (Bool-cases (c == 0)) [
        | inl nul ↦ absurd (here (ground arith))
        | inr other ↦ rw other (ap (◌∷◌ c) (ends name rest later))
      ]
