-- ===== src/Serializer/RoundTrip.antt =====
-- src/ByteArraySerializer.cpp: popValue reads back what pushValue wrote.
use ucxx.Base.{
  ℕ, zero, suc, ◌<◌, ◌^◌, ◌≡◌, sym, ap, subst, ◌∙◌, List, [], ◌∷◌, ◌++◌, Option, none, some, All,
  append-nil, arith, length,
}
use ucxx.ByteArray
use ucxx.ByteArray.{ByteArray}
use ucxx.Serializer.State.{
  Serializer, Pop, pure, ok, rejected, init_with, available, ◌>>=◌, and_then,
}
use ucxx.Serializer.Push.{push_value}
use ucxx.Serializer.Pop.{pop_nested, pop_value}
use ucxx.Serializer.Append.{appended, appended_twice, appended_nil, push_value-appended}
use ucxx.Serializer.Encode.{encode}
use ucxx.Serializer.Storable.{IsStorable}
use ucxx.Serializer.Reads.{reader, Reads, Reads-bind, Reads-pure, Reads-assoc}
use ucxx.Serializer.Values.{pop_value-Reads}
use ucxx.Variant.{Variant}

-- A storable value that is pushed is popped again by a reader whose index stands where the pushed
-- bytes begin, whatever bytes come before and behind, as long as the array is shorter than 2^32
-- bytes; the index moves to the end of the value and the array stays as it is.
pub pop_value-push_value :
    (v : Variant) (s t : Serializer) (rest : List ℕ)
    → IsStorable v
    → push_value v s ≡ some t
    → length (t.byte_array.bytes ++ rest) < 2 ^ 32
    → pop_value (reader (t.byte_array.bytes ++ rest) (length s.byte_array.bytes))
      ≡ ok v (reader (t.byte_array.bytes ++ rest) (length t.byte_array.bytes))
pop_value-push_value v s t rest storable pushed =
    subst
      (λ (b : List ℕ).
        length (b ++ rest) < 2 ^ 32
        → pop_value (reader (b ++ rest) (length s.byte_array.bytes))
          ≡ ok v (reader (b ++ rest) (length b)))
      written
      (Reads-assoc pop_value (encode v) (pop_value-Reads v storable) s.byte_array.bytes rest)
  where
    written : s.byte_array.bytes ++ encode v ≡ t.byte_array.bytes
    written = cc (push_value-appended v s)

-- A client that pushes values one after the other, and one that pops as many.
unfoldable pub push_all : List Variant → Serializer → Option Serializer
push_all [] s = some s
push_all (v ∷ vs) s = elim (push_value v s) [ none ↦ none | some t ↦ push_all vs t ]

unfoldable pub pop_all : ℕ → Pop (List Variant)
pop_all zero = pure []
pop_all (suc n) = do v ← pop_value; vs ← pop_all n; pure (v ∷ vs)

abbrev pub encode_all : List Variant → List ℕ
encode_all [] = []
encode_all (v ∷ vs) = encode v ++ encode_all vs

push_all-appended :
    (vs : List Variant) (s : Serializer) → push_all vs s ≡ some (appended s (encode_all vs))
unfolding push_all
push_all-appended [] s = appended_nil s
push_all-appended (v ∷ vs) s =
    rw (push_value-appended v s, push_all)
      (push_all-appended vs (appended s (encode v))
        ∙ ap some (appended_twice s (encode v) (encode_all vs)))

pop_all-Reads :
    (vs : List Variant) → All IsStorable vs → Reads (pop_all (length vs)) (encode_all vs) vs
unfolding pop_all
pop_all-Reads [] h = Reads-pure []
pop_all-Reads (v ∷ vs) h =
    Reads-bind pop_value (λ v. pop_all (length vs) >>= λ vs. pure (v ∷ vs)) (encode v)
      (encode_all vs) (pop_value-Reads v h.0)
      (λ before rest small.
        ap (λ o. and_then o (λ vs. pure (v ∷ vs))) (pop_all-Reads vs h.1 before rest small))

-- At the end of the array nothing is popped, and nothing changes.
pub pop_value_exhausted : (s : Serializer) → available s ≡ 0 → pop_value s ≡ rejected s
unfolding pop_value pop_nested
pop_value_exhausted s h = ground arith

-- Values that are pushed to a serializer over an array `ba` are popped, from the end of `ba` on, in
-- the order in which they were pushed, as long as the array stays shorter than 2^32 bytes. Then
-- nothing is left to read, the array is as it was, and one more pop is rejected.
pub pop_all-push_all :
    (vs : List Variant) (ba : ByteArray) (t : Serializer)
    → All IsStorable vs
    → push_all vs (init_with ba) ≡ some t
    → length t.byte_array.bytes < 2 ^ 32
    → let u = record t { index = length t.byte_array.bytes } in
      (pop_all (length vs) (record t { index = length ba.bytes }) ≡ ok vs u)
      × (available u ≡ 0)
      × (pop_value u ≡ rejected u)
unfolding init_with available ByteArray.size
pop_all-push_all vs ba t storable pushed small = (
  subst
      (λ (b : List ℕ).
        length b < 2 ^ 32
        → pop_all (length vs) (reader b (length ba.bytes)) ≡ ok vs (reader b (length b)))
      (append-nil _ ∙ written) read small,
  nothing_left,
  pop_value_exhausted _ nothing_left,
)
  where
    written : ba.bytes ++ encode_all vs ≡ t.byte_array.bytes
    written = cc (push_all-appended vs (init_with ba))

    nothing_left : available (record t { index = length t.byte_array.bytes }) ≡ 0
    nothing_left = omega arith

    read :
        length ((ba.bytes ++ encode_all vs) ++ []) < 2 ^ 32
        → pop_all (length vs) (reader ((ba.bytes ++ encode_all vs) ++ []) (length ba.bytes))
          ≡ ok vs (
              reader
                ((ba.bytes ++ encode_all vs) ++ [])
                (length ((ba.bytes ++ encode_all vs) ++ [])))
    read h =
        Reads-assoc (pop_all (length vs)) (encode_all vs) (pop_all-Reads vs storable) ba.bytes [] h
        ∙ ap (λ (n : ℕ). ok vs (reader ((ba.bytes ++ encode_all vs) ++ []) n))
            (ap length (sym (append-nil _)))

-- Two storable values whose encodings are equal, and shorter than 2^32 bytes, are equal.
pub encode-injective :
    (v w : Variant)
    → IsStorable v
    → IsStorable w
    → length (encode v) < 2 ^ 32
    → encode v ≡ encode w
    → v ≡ w
encode-injective v w hv hw small e =
    cc (read v hv small, read w hw (subst (λ (b : List ℕ). length b < 2 ^ 32) e small), e)
  where
    read :
        (x : Variant)
        → IsStorable x
        → length (encode x) < 2 ^ 32
        → pop_value (reader (encode x) 0) ≡ ok x (reader (encode x) (length (encode x)))
    read x h lt =
        subst
          (λ (b : List ℕ).
            length b < 2 ^ 32 → pop_value (reader b 0) ≡ ok x (reader b (length (encode x))))
          (append-nil (encode x)) (pop_value-Reads x h [] []) lt
