-- ===== src/Messages/Message/Transit.antt =====
-- A message on its way: written into a queue, rebound where it is taken out, and cloned.
use francois_gingras_master.Common.{
  ℕ, zero, suc, ◌+◌, ◌≤◌, ◌≡◌, refl, take-take, List, [], ◌∷◌, done, fault, take, length, arith,
}
use francois_gingras_master.Messages.Header.{Place, IsOwned, read_array_inline}
use francois_gingras_master.Messages.BarMsg
use francois_gingras_master.Messages.TextMsg
use francois_gingras_master.Messages.RefIntArrayMsg
use francois_gingras_master.Messages.TopologyMsg
use francois_gingras_master.Messages.IntArrayMsg
use francois_gingras_master.Messages.DoneMsg
use francois_gingras_master.Messages.RefTwoDimIntArrayMsg
use francois_gingras_master.Messages.RequestMsg
use francois_gingras_master.Messages.ResponseMsg
use francois_gingras_master.Messages.Message.{
  Message, bar, text, ref_int_array, topology, int_array, signal, ref_two_dim, request, response,
  clone,
}
use francois_gingras_master.Messages.Message.Law.{IsReady, image, rebound}

-- The same message, with its array in a block of its own.
abbrev pub copied : Message → Message
copied (topology m) = topology (record m {
  bucket_ids = record { place = Place.owned; items = take m.bucket_count m.bucket_ids.items };
})
copied (int_array m) =
    int_array
      (record m { values = record { place = Place.owned; items = take m.size m.values.items } })
copied (request m) = request (record m {
  payload = record { place = Place.owned; items = take m.data_size m.payload.items };
})
copied (response m) = response (record m {
  payload = record { place = Place.owned; items = take m.data_size m.payload.items };
})
copied m = m

owned_len :
    {A : Type 0} (p : Place) (items : List A) (n : ℕ)
    → IsOwned (record { place = p; items = items }) n
    → n ≤ length (take n items)
owned_len Place.null items n h = omega arith
owned_len Place.owned items zero h = omega arith
owned_len Place.owned [] (suc n) h = h
owned_len Place.owned (x ∷ items) (suc n) h = omega (arith, owned_len Place.owned items n)
owned_len (Place.inline at) items n h = elim h [ ]

-- What a receiver gets is what was sent: a ready message written at any address of the sender, rebound and
-- cloned at any address of the receiver, comes out with all its fields, its methods and a copy of
-- its array.
pub clone-rebound-image :
    (m : Message) (a b : ℕ) → IsReady m → clone b (rebound b (image m a)) ≡ done (copied m)
unfolding clone rebound image BarMsg.clone BarMsg.rebind TextMsg.clone TextMsg.rebind
    TextMsg.strcpy_msg RefIntArrayMsg.clone RefIntArrayMsg.rebind TopologyMsg.clone
    TopologyMsg.rebind IntArrayMsg.clone IntArrayMsg.rebind DoneMsg.clone DoneMsg.rebind
    RefTwoDimIntArrayMsg.clone RefTwoDimIntArrayMsg.rebind RequestMsg.clone RequestMsg.rebind
    ResponseMsg.clone ResponseMsg.rebind
clone-rebound-image (bar m) a b r = ground (arith, r.bound)
clone-rebound-image (text m) a b r = ground (arith, r.bound, r.owns)
clone-rebound-image (ref_int_array m) a b r = ground (arith, r.bound)
clone-rebound-image (topology m) a b r = rw (
  read_array_inline (b + TopologyMsg.sizeof_topology) (take m.bucket_count m.bucket_ids.items)
      m.bucket_count (owned_len m.bucket_ids.place m.bucket_ids.items m.bucket_count r.owns),
  take-take m.bucket_count m.bucket_ids.items,
  r.bound,
)
clone-rebound-image (int_array m) a b r = rw (
  read_array_inline (b + IntArrayMsg.sizeof_intarray) (take m.size m.values.items) m.size
      (owned_len m.values.place m.values.items m.size r.owns),
  take-take m.size m.values.items,
  r.bound,
)
clone-rebound-image (signal m) a b r = ground (arith, r.bound)
clone-rebound-image (ref_two_dim m) a b r = ground (arith, r.bound)
clone-rebound-image (request m) a b r = rw (
  read_array_inline (b + RequestMsg.sizeof_request) (take m.data_size m.payload.items) m.data_size
      (owned_len m.payload.place m.payload.items m.data_size r.owns),
  take-take m.data_size m.payload.items,
  r.bound,
)
clone-rebound-image (response m) a b r = rw (
  read_array_inline (b + ResponseMsg.sizeof_response) (take m.data_size m.payload.items) m.data_size
      (owned_len m.payload.place m.payload.items m.data_size r.owns),
  take-take m.data_size m.payload.items,
  r.bound,
)

-- Before it is rebound, no method of a message in a queue can be called.
pub clone-image_fault : (m : Message) (a b : ℕ) → clone b (image m a) ≡ fault
unfolding clone image
clone-image_fault (bar m) a b = refl
clone-image_fault _ a b = refl
