-- ===== src/Messages/Build.antt =====
-- The messages that the constructors and the setters build.
use francois_gingras_master.Common.{
  ℕ, sym, ltb, ◌+◌, ◌*◌, ◌^◌, ◌≤◌, ◌<◌, ◌≡◌, refl, Bool-cases, inl, inr, ℤ, List, done, fault,
  length, length-take, leb, arith,
}
use francois_gingras_master.Queue.Api.{q_size}
use francois_gingras_master.Messages.Header.{Ptr}
use francois_gingras_master.Messages.BarMsg
use francois_gingras_master.Messages.TextMsg
use francois_gingras_master.Messages.RefIntArrayMsg
use francois_gingras_master.Messages.TopologyMsg
use francois_gingras_master.Messages.IntArrayMsg
use francois_gingras_master.Messages.DoneMsg
use francois_gingras_master.Messages.RefTwoDimIntArrayMsg
use francois_gingras_master.Messages.RequestMsg
use francois_gingras_master.Messages.ResponseMsg
use francois_gingras_master.Messages.Message.{
  Message, bar, text, ref_int_array, topology, int_array, signal, ref_two_dim, request, response,
}
use francois_gingras_master.Messages.Message.Law.{IsReady}

-- Each class's constructor, followed by its setter. `memory` is any block, and an array is short
-- enough for the size of the message to stay an int that a queue can add to an offset.
pub data Built : Message → Type 0 where
  bar_built :
      (tag : ℤ) (memory : BarMsg.BarMsg) (value : ℤ)
      → Built (bar (BarMsg.set_value (BarMsg.create tag memory) value))
  text_built :
      (tag : ℤ) (memory : TextMsg.TextMsg) (bytes : List ℕ) (m : TextMsg.TextMsg)
      → TextMsg.set_msg (TextMsg.create tag memory) bytes ≡ done m
      → Built (text m)
  ref_int_array_built :
      (tag : ℤ) (memory : RefIntArrayMsg.RefIntArrayMsg) (count : ℕ) (p : Ptr)
      → Built (ref_int_array (RefIntArrayMsg.set_values (RefIntArrayMsg.create tag memory) count p))
  topology_built :
      (tag : ℤ) (memory : TopologyMsg.TopologyMsg) (count : ℕ) (ids : List ℕ)
      (m : TopologyMsg.TopologyMsg)
      → count * 4 + 104 + q_size < 2 ^ 31
      → TopologyMsg.set_bucket_ids (TopologyMsg.create tag memory) count ids ≡ done m
      → Built (topology m)
  int_array_built :
      (tag : ℤ) (memory : IntArrayMsg.IntArrayMsg) (count : ℕ) (val : List ℤ)
      (m : IntArrayMsg.IntArrayMsg)
      → count * 4 + 104 + q_size < 2 ^ 31
      → IntArrayMsg.set_values (IntArrayMsg.create tag memory) count val ≡ done m
      → Built (int_array m)
  signal_built : (tag : ℤ) (memory : DoneMsg.DoneMsg) → Built (signal (DoneMsg.create tag memory))
  ref_two_dim_built :
      (tag : ℤ) (memory : RefTwoDimIntArrayMsg.RefTwoDimIntArrayMsg)
      → Built (ref_two_dim (RefTwoDimIntArrayMsg.create tag memory))
  request_built :
      (tag : ℤ) (bytes : List ℕ) (size : ℕ) (m : RequestMsg.RequestMsg)
      → size + 104 + q_size < 2 ^ 31
      → RequestMsg.set_data (RequestMsg.create tag) bytes size ≡ done m
      → Built (request m)
  response_built :
      (tag : ℤ) (bytes : List ℕ) (size : ℕ) (m : ResponseMsg.ResponseMsg)
      → size + 104 + q_size < 2 ^ 31
      → ResponseMsg.set_data (ResponseMsg.create tag) bytes size ≡ done m
      → Built (response m)

done_injective : {A : Type 0} {a b : A} → done a ≡ done b → a ≡ b
done_injective e = cc

fault≢done : {A : Type 0} {a : A} → fault ≡ done a → ⊥
fault≢done e = cc

text-IsReady :
    (tag : ℤ) (memory m : TextMsg.TextMsg) (bytes : List ℕ)
    → TextMsg.set_msg (TextMsg.create tag memory) bytes ≡ done m
    → IsReady (text m)
unfolding TextMsg.set_msg TextMsg.create TextMsg.strcpy_msg
text-IsReady tag memory m bytes e = elim (Bool-cases (ltb (length bytes) 100)) [
  | inl fits ↦
      let at : m ≡ record (TextMsg.create tag memory) { msg = bytes } =
        sym (done_injective (rw fits at e)) in
      rw at (record {
        sound = record { classed = refl; sized = omega arith };
        bound = refl;
        small = omega arith;
        owns = ground arith;
      })
  | inr long ↦ absurd (fault≢done (rw long at e))
]

topology-IsReady :
    (tag : ℤ) (memory m : TopologyMsg.TopologyMsg) (count : ℕ) (ids : List ℕ)
    → count * 4 + 104 + q_size < 2 ^ 31
    → TopologyMsg.set_bucket_ids (TopologyMsg.create tag memory) count ids ≡ done m
    → IsReady (topology m)
unfolding TopologyMsg.set_bucket_ids TopologyMsg.create
topology-IsReady tag memory m count ids h e = elim (Bool-cases (leb count (length ids))) [
  | inl fits ↦
      let below : count ≤ length ids = ground arith in
      rw (sym (done_injective (rw fits at e))) (record {
        sound = record { classed = refl; sized = omega arith };
        bound = refl;
        small = omega arith;
        owns = omega (arith, length-take count ids below);
      })
  | inr short ↦ absurd (fault≢done (rw short at e))
]

int_array-IsReady :
    (tag : ℤ) (memory m : IntArrayMsg.IntArrayMsg) (count : ℕ) (val : List ℤ)
    → count * 4 + 104 + q_size < 2 ^ 31
    → IntArrayMsg.set_values (IntArrayMsg.create tag memory) count val ≡ done m
    → IsReady (int_array m)
unfolding IntArrayMsg.set_values IntArrayMsg.create
int_array-IsReady tag memory m count val h e = elim (Bool-cases (leb count (length val))) [
  | inl fits ↦
      let below : count ≤ length val = ground arith in
      rw (sym (done_injective (rw fits at e))) (record {
        sound = record { classed = refl; sized = omega arith };
        bound = refl;
        small = omega arith;
        owns = omega (arith, length-take count val below);
      })
  | inr short ↦ absurd (fault≢done (rw short at e))
]

request-IsReady :
    (tag : ℤ) (m : RequestMsg.RequestMsg) (size : ℕ) (bytes : List ℕ)
    → size + 104 + q_size < 2 ^ 31
    → RequestMsg.set_data (RequestMsg.create tag) bytes size ≡ done m
    → IsReady (request m)
unfolding RequestMsg.set_data RequestMsg.create
request-IsReady tag m size bytes h e = elim (Bool-cases (leb size (length bytes))) [
  | inl fits ↦
      let below : size ≤ length bytes = ground arith in
      rw (sym (done_injective (rw fits at e))) (record {
        sound = record { classed = refl; sized = omega arith };
        bound = refl;
        small = omega arith;
        owns = omega (arith, length-take size bytes below);
      })
  | inr short ↦ absurd (fault≢done (rw short at e))
]

response-IsReady :
    (tag : ℤ) (m : ResponseMsg.ResponseMsg) (size : ℕ) (bytes : List ℕ)
    → size + 104 + q_size < 2 ^ 31
    → ResponseMsg.set_data (ResponseMsg.create tag) bytes size ≡ done m
    → IsReady (response m)
unfolding ResponseMsg.set_data ResponseMsg.create
response-IsReady tag m size bytes h e = elim (Bool-cases (leb size (length bytes))) [
  | inl fits ↦
      let below : size ≤ length bytes = ground arith in
      rw (sym (done_injective (rw fits at e))) (record {
        sound = record { classed = refl; sized = omega arith };
        bound = refl;
        small = omega arith;
        owns = omega (arith, length-take size bytes below);
      })
  | inr short ↦ absurd (fault≢done (rw short at e))
]

-- Whatever a constructor and a setter build is ready to be sent: its function pointers are set, its
-- type number is its class's, its size counts its array, and the array is its own.
pub Built-IsReady : (m : Message) → Built m → IsReady m
unfolding BarMsg.set_value BarMsg.create RefIntArrayMsg.set_values RefIntArrayMsg.create
    DoneMsg.create RefTwoDimIntArrayMsg.create
Built-IsReady (bar m) (bar_built tag memory value) = record {
  sound = record { classed = refl; sized = omega arith };
  bound = refl;
  small = omega arith;
  owns = tt;
}
Built-IsReady (text m) (text_built tag memory bytes m' e) = text-IsReady tag memory m bytes e
Built-IsReady (ref_int_array m) (ref_int_array_built tag memory count p) = record {
  sound = record { classed = refl; sized = omega arith };
  bound = refl;
  small = omega arith;
  owns = tt;
}
Built-IsReady (topology m) (topology_built tag memory count ids m' h e) =
    topology-IsReady tag memory m count ids h e
Built-IsReady (int_array m) (int_array_built tag memory count val m' h e) =
    int_array-IsReady tag memory m count val h e
Built-IsReady (signal m) (signal_built tag memory) = record {
  sound = record { classed = refl; sized = omega arith };
  bound = refl;
  small = omega arith;
  owns = tt;
}
Built-IsReady (ref_two_dim m) (ref_two_dim_built tag memory) = record {
  sound = record { classed = refl; sized = omega arith };
  bound = refl;
  small = omega arith;
  owns = tt;
}
Built-IsReady (request m) (request_built tag bytes size m' h e) =
    request-IsReady tag m size bytes h e
Built-IsReady (response m) (response_built tag bytes size m' h e) =
    response-IsReady tag m size bytes h e
