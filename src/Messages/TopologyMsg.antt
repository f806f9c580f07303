-- ===== src/Messages/TopologyMsg.antt =====
-- TaskSystem/src/Messages/TopologyMsg/TopologyMsg.c and its headers: the buckets of a sample sort.
use francois_gingras_master.Common.{
  ℕ, ◌+◌, ◌*◌, ◌%◌, ℤ, true, false, List, Outcome, done, fault, or_fault, ◌>>=◌, length, take,
  get_elem?, leb, if◌then◌else◌, word,
}
use francois_gingras_master.Messages.Header.{Header, Array, Place, read_array}

pub record TopologyMsg : Type 0 where
  pub header : Header
  pub open header use *
  pub bucket_count : ℕ
  pub root_id : ℕ
  pub sample_size : ℤ
  pub data_size : ℤ
  pub bucket_ids : Array ℕ

abbrev pub topology_msg_id : ℕ
topology_msg_id = 4

-- sizeof(struct TopologyMsg)
abbrev pub sizeof_topology : ℕ
sizeof_topology = 104

unfoldable pub create : ℤ → TopologyMsg → TopologyMsg
create tag memory = record memory {
  header = record { tag = tag; tid = topology_msg_id; msg_size = sizeof_topology; methods = true };
}

unfoldable pub get_tag : TopologyMsg → ℤ
get_tag this = this.tag

unfoldable pub clone : TopologyMsg → ℕ → TopologyMsg → Outcome TopologyMsg
unfolding create
clone memory at this = do
  let tmp = create this.tag memory
  ids ← read_array (at + sizeof_topology) this.bucket_ids this.bucket_count
  done (record {
    header = record (tmp.header) { tag = this.tag; tid = this.tid; msg_size = this.msg_size };
    bucket_count = this.bucket_count;
    root_id = this.root_id;
    sample_size = this.sample_size;
    data_size = this.data_size;
    bucket_ids = record { place = Place.owned; items = ids };
  })

-- The object at the address, and the sender's afterwards: its size grows by that of the array,
-- which `setBucketIds` has counted already.
unfoldable pub write_at : TopologyMsg → ℕ → Outcome (TopologyMsg × TopologyMsg)
write_at this addr = do
  ids ← read_array 0 this.bucket_ids this.bucket_count
  let grown = (this.msg_size + this.bucket_count * 4) % word
  done (
    record {
      header = record (this.header) { methods = false };
      bucket_count = this.bucket_count;
      root_id = this.root_id;
      sample_size = this.sample_size;
      data_size = this.data_size;
      bucket_ids = record { place = Place.inline (addr + sizeof_topology); items = ids };
    },
    record this { header = record (this.header) { msg_size = grown } },
  )

unfoldable pub rebind : ℕ → TopologyMsg → TopologyMsg
rebind at msg = record msg {
  header = record (msg.header) { methods = true };
  bucket_ids = record (msg.bucket_ids) { place = Place.inline (at + sizeof_topology) };
}

unfoldable pub set_bucket_ids : TopologyMsg → ℕ → List ℕ → Outcome TopologyMsg
set_bucket_ids this count ids =
    if leb count (length ids)
    then done (record this {
      header = record (this.header) { msg_size = (sizeof_topology + count * 4) % word };
      bucket_count = count;
      bucket_ids = record { place = Place.owned; items = take count ids };
    })
    else fault

unfoldable pub get_bucket_id : ℕ → TopologyMsg → ℕ → Outcome ℕ
get_bucket_id at this index = do
  ids ← read_array (at + sizeof_topology) this.bucket_ids (index + 1)
  or_fault (get_elem? ids index)

unfoldable pub set_root_id : TopologyMsg → ℕ → TopologyMsg
set_root_id this id = record this { root_id = id }

unfoldable pub get_root_id : TopologyMsg → ℕ
get_root_id this = this.root_id
