-- ===== src/Serializer/Typed.antt =====
-- src/ByteArraySerializer.cpp: popValue and the types of what it returns.
use ucxx.Base.{
  zero, suc, ap, subst, ◌∙◌, ℕ, ◌≡◌, refl, some, arith, Bool-cases, inl, inr, ltb, leb, get_elem?,
  Option-cases,
}
use ucxx.Serializer.State.{
  Serializer, Outcome, Pop, ok, rejected, fault, out_of_fuel, available, advance, and_then, pure,
}
use ucxx.Serializer.Signature.{
  type_signature, signature_type, pop_type_signature, load_type_signature,
}
use ucxx.Serializer.Pop.{
  pop_boolean, pop_integer, pop_real, pop_string, pop_list, pop_map, pop_typed, pop_nested,
  pop_value,
}
use ucxx.Variant.{Kind, Variant, kind, boolean, integer, real, string, list, map, of_kind}

abbrev HasKind : Kind → Outcome Variant → Type 0
HasKind k (ok v t) = kind v ≡ k
HasKind k _ = Unit {0}

wrap-HasKind :
    {A : Type 0} (k : Kind) (wrap : A → Variant) (o : Outcome A)
    → ((a : A) → kind (wrap a) ≡ k)
    → HasKind k (and_then o (λ a. pure (wrap a)))
wrap-HasKind k wrap (ok a t) h = h a
wrap-HasKind k wrap (rejected t) h = tt
wrap-HasKind k wrap (fault e) h = tt
wrap-HasKind k wrap out_of_fuel h = tt

typed-HasKind : (pop : Pop Variant) (k : Kind) (s : Serializer) → HasKind k (pop_typed pop k s)
unfolding pop_typed kind of_kind
typed-HasKind pop Kind.invalid s = refl
typed-HasKind pop Kind.null s = refl
typed-HasKind pop Kind.boolean s = wrap-HasKind Kind.boolean boolean (pop_boolean s) (λ a. refl)
typed-HasKind pop Kind.integer s = wrap-HasKind Kind.integer integer (pop_integer s) (λ a. refl)
typed-HasKind pop Kind.real s = wrap-HasKind Kind.real real (pop_real s) (λ a. refl)
typed-HasKind pop Kind.string s = wrap-HasKind Kind.string string (pop_string s) (λ a. refl)
typed-HasKind pop Kind.list s = wrap-HasKind Kind.list list (pop_list pop s) (λ a. refl)
typed-HasKind pop Kind.map s = wrap-HasKind Kind.map map (pop_map pop s) (λ a. refl)
typed-HasKind pop Kind.max_types s = tt

type_signature-signature_type :
    (c : ℕ) (k : Kind) → signature_type c ≡ some k → type_signature k ≡ some c
unfolding type_signature signature_type
type_signature-signature_type c Kind.invalid h = ground arith
type_signature-signature_type c Kind.null h = ground arith
type_signature-signature_type c Kind.boolean h = ground arith
type_signature-signature_type c Kind.integer h = ground arith
type_signature-signature_type c Kind.real h = ground arith
type_signature-signature_type c Kind.string h = ground arith
type_signature-signature_type c Kind.list h = ground arith
type_signature-signature_type c Kind.map h = ground arith
type_signature-signature_type c Kind.max_types h = ground arith

-- What a run returns has the type of the byte at the index of `s`.
abbrev Signed : Serializer → Outcome Variant → Type 0
Signed s (ok v t) =
    (c : ℕ) × (get_elem? s.byte_array.bytes s.index ≡ some c) × (type_signature (kind v) ≡ some c)
Signed s _ = Unit {0}

HasKind-Signed :
    (k : Kind) (s : Serializer) (c : ℕ) (o : Outcome Variant)
    → get_elem? s.byte_array.bytes s.index ≡ some c
    → type_signature k ≡ some c
    → HasKind k o
    → Signed s o
HasKind-Signed k s c (ok v t) found signed same = (c, found, ap type_signature same ∙ signed)
HasKind-Signed k s c (rejected t) found signed same = tt
HasKind-Signed k s c (fault e) found signed same = tt
HasKind-Signed k s c out_of_fuel found signed same = tt

nested-Signed : (n : ℕ) (s : Serializer) → Signed s (pop_nested n s)
unfolding pop_nested pop_type_signature load_type_signature
nested-Signed zero s = tt
nested-Signed (suc n) s = elim (Bool-cases (leb (available s) 0)) [
  | inl done ↦ rw (done, pop_nested) tt
  | inr more ↦ elim (Bool-cases (ltb (available s) 1)) [
    | inl short ↦ rw (more, short, pop_nested, pop_type_signature) tt
    | inr guard ↦ elim (Option-cases (get_elem? s.byte_array.bytes s.index)) [
      | inl outside ↦
          rw (more, guard, outside, pop_nested, pop_type_signature, load_type_signature) tt
      | inr (c, found) ↦ elim (Option-cases (signature_type c)) [
        | inl unknown ↦
            rw (more, guard, found, unknown, pop_nested, pop_type_signature, load_type_signature) tt
        | inr (k, known) ↦
            rw (more, guard, found, known, pop_nested, pop_type_signature, load_type_signature)
              (HasKind-Signed k s c (pop_typed (pop_nested n) k (advance s 1)) found
                (type_signature-signature_type c k known)
                (typed-HasKind (pop_nested n) k (advance s 1)))
      ]
    ]
  ]
]

-- The Variant that popValue returns has the type whose signature is the byte at the index that it
-- began at.
pub pop_value-kind :
    (s t : Serializer) (v : Variant)
    → pop_value s ≡ ok v t
    → (c : ℕ) × (get_elem? s.byte_array.bytes s.index ≡ some c) × (type_signature (kind v) ≡ some c)
unfolding pop_value
pop_value-kind s t v popped = subst (Signed s) popped (nested-Signed (suc (available s)) s)
