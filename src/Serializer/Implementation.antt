-- ===== src/Serializer/Implementation.antt =====
-- ByteArraySerializer (src/ByteArraySerializer.cpp) implements src/IVariantSerializer.h.
use ucxx.Base.{
  ℕ, ◌+◌, ◌<◌, ◌^◌, ◌≡◌, refl, sym, ap, ◌∙◌, List, [], ◌∷◌, ◌++◌, some, All, All-append, append-nil,
  append_assoc, length, length-append, arith,
}
use ucxx.ByteArray
use ucxx.Serializer.State.{
  Serializer, Outcome, ok, rejected, fault, out_of_fuel, init_with, available,
}
use ucxx.Serializer.Push.{push_value}
use ucxx.Serializer.Pop.{pop_value}
use ucxx.Serializer.Append.{appended, push_value-appended}
use ucxx.Serializer.Encode.{encode}
use ucxx.Serializer.Storable.{IsStorable}
use ucxx.Serializer.Reads.{reader, at}
use ucxx.Serializer.Values.{pop_value-Reads}
use ucxx.Serializer.RoundTrip.{encode_all, pop_value_exhausted}
use ucxx.Serializer.Interface.{
  VariantSerializer, Popped, popped, refused, undefined, Queues, Call, run, run_queue, Fits,
  run-Holds,
}
use ucxx.Variant.{Variant}

abbrev pub outcome : Outcome Variant → Popped Serializer
outcome (ok v s) = popped v s
outcome (rejected s) = refused s
outcome (fault e) = undefined
outcome out_of_fuel = undefined

abbrev pub byte_array_serializer : VariantSerializer
byte_array_serializer = record {
  State = Serializer;
  push_value = push_value;
  pop_value = λ s. outcome (pop_value s);
}

-- The index stands in front of the values that are still to come.
pub record Holding (s : Serializer) (used : ℕ) (vs : List Variant) : Type 0 where
  pub read : List ℕ
  pub place : s ≡ at read (encode_all vs)
  pub stored : All IsStorable vs
  pub filled : length (read ++ encode_all vs) ≡ used
  pub small : used < 2 ^ 32

abbrev pub encoded_size : Variant → ℕ
encoded_size v = length (encode v)

encode_all-append :
    (vs : List Variant) (v : Variant) → encode_all (vs ++ v ∷ []) ≡ encode_all vs ++ encode v
encode_all-append [] v = append-nil (encode v)
encode_all-append (w ∷ vs) v =
    ap (λ (b : List ℕ). encode w ++ b) (encode_all-append vs v)
    ∙ sym (append_assoc (encode w) (encode_all vs) (encode v))

pub push-Holding :
    (s : Serializer) (used : ℕ) (vs : List Variant) (v : Variant)
    → Holding s used vs
    → IsStorable v
    → used + encoded_size v < 2 ^ 32
    → (t : Serializer) × (push_value v s ≡ some t)
      × Holding t (used + encoded_size v) (vs ++ v ∷ [])
push-Holding s used vs v h storable room = (
  appended s (encode v),
  push_value-appended v s,
  record {
    read = h.read;
    place =
        ap (λ (x : Serializer). appended x (encode v)) h.place
        ∙ ap (λ (b : List ℕ). reader b (length h.read))
            (append_assoc h.read (encode_all vs) (encode v)
              ∙ ap (λ (b : List ℕ). h.read ++ b) (sym (encode_all-append vs v)));
    stored = All-append IsStorable vs (v ∷ []) h.stored (storable, tt);
    filled = omega (
      arith,
      h.filled,
      ap length (encode_all-append vs v),
      length-append h.read (encode_all (vs ++ v ∷ [])),
      length-append h.read (encode_all vs),
      length-append (encode_all vs) (encode v),
    );
    small = room;
  },
)

pub pop-Holding :
    (s : Serializer) (used : ℕ) (v : Variant) (vs : List Variant)
    → Holding s used (v ∷ vs)
    → (t : Serializer) × (outcome (pop_value s) ≡ popped v t) × Holding t used vs
pop-Holding s used v vs h = (
  at (h.read ++ encode v) (encode_all vs),
  ap (λ (x : Serializer). outcome (pop_value x)) h.place
      ∙ ap outcome
          (pop_value-Reads v h.stored.0 h.read (encode_all vs) (omega (arith, h.small, h.filled))),
  record {
    read = h.read ++ encode v;
    place = refl;
    stored = h.stored.1;
    filled = ap length (append_assoc h.read (encode v) (encode_all vs)) ∙ h.filled;
    small = h.small;
  },
)

pub pop_none-Holding :
    (s : Serializer) (used : ℕ)
    → Holding s used []
    → (t : Serializer) × (outcome (pop_value s) ≡ refused t) × Holding t used []
unfolding available ByteArray.size
pop_none-Holding s used h = (
  s,
  ap outcome (
      pop_value_exhausted s (
        omega (
          arith,
          ap (λ (x : Serializer). length x.byte_array.bytes) h.place,
          ap (λ (x : Serializer). x.index) h.place,
          length-append h.read [],
        ))),
  h,
)

abbrev pub byte_array_queues : Queues byte_array_serializer
byte_array_queues = record {
  Holds = Holding;
  Accepts = IsStorable;
  size = encoded_size;
  room = 2 ^ 32;
  push-Holds = push-Holding;
  pop-Holds = pop-Holding;
  pop_none-Holds = pop_none-Holding;
}

-- A client of a new serializer pushes and pops in whatever order: as long as the values can be
-- stored and their encodings together are shorter than 2^32 bytes, each popValue gives the value
-- that has been pushed first of those that have not been popped yet, and false when there is none.
pub run-queue :
    (calls : List Call)
    → Fits byte_array_serializer byte_array_queues 0 calls
    → run byte_array_serializer (init_with ByteArray.empty) calls ≡ run_queue [] calls
unfolding init_with
run-queue calls fits =
    run-Holds byte_array_serializer byte_array_queues (init_with ByteArray.empty) 0 [] calls
      record { read = []; place = refl; stored = tt; filled = refl; small = omega arith } fits
