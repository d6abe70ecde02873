-- ===== src/Buffers.antt =====
-- The pool of static input buffers: `rmw_uxrce_find_static_input_buffer_by_owner` of src/types.c
-- and the block that the three callbacks of src/callbacks.c share.
pub mod Mailbox
pub mod Taken
use rmw_microxrcedds.Base.{
  ℕ, Bool, true, false, Option, none, some, List, [], ◌∷◌, ◌==◌, if◌then◌else◌,
}
use rmw_microxrcedds.Memory.{Ptr, null, Mempool, get_memory, put_memory}
use rmw_microxrcedds.Memory.Walk.{walk}
use rmw_microxrcedds.Types.{StaticInputBuffer, Owner, owner_eq, Related}

-- A sample that arrives: its length, what `ucdr_deserialize_array_uint8_t` writes into the buffer,
-- and its result.
pub record Incoming : Type 0 where
  pub length : ℕ
  pub bytes : List ℕ
  pub deserialized : Bool

-- The buffer behind an item.
abbrev pub buffer_at : Mempool StaticInputBuffer → Ptr → StaticInputBuffer
buffer_at m p = m.elements (m.items p).element

abbrev pub write_buffer :
    Mempool StaticInputBuffer → Ptr → StaticInputBuffer → Mempool StaticInputBuffer
write_buffer m e b = record m { elements = λ a. if a == e then b else m.elements a }

-- The first item of the allocated list whose buffer belongs to the owner, NULL if there is none.
unfoldable pub find_static_input_buffer_by_owner :
    (fuel : ℕ) → Mempool StaticInputBuffer → Owner → Option Ptr
unfolding walk owner_eq
find_static_input_buffer_by_owner fuel m owner =
    walk fuel m.items m.allocateditems (λ x. owner_eq (buffer_at m x).owner owner)

-- `related` stays as it was where the callback does not write it.
abbrev pub written : StaticInputBuffer → Owner → Option Related → Incoming → StaticInputBuffer
written b owner none sample = record b {
  owner = owner;
  length = sample.length;
  buffer = sample.bytes;
}
written b owner (some r) sample = record b {
  owner = owner;
  length = sample.length;
  related = r;
  buffer = sample.bytes;
}

-- With the item from `get_memory`.
unfoldable pub fill_input :
    Mempool StaticInputBuffer → Ptr → Owner → Option Related → Incoming → Mempool StaticInputBuffer
fill_input m node owner related sample =
    if node == null
    then m
    else (let n =
          write_buffer m (m.items node).element (written (buffer_at m node) owner related sample) in
        if sample.deserialized then n else put_memory false n node)

unfoldable pub store_input :
    Mempool StaticInputBuffer → Owner → Option Related → Incoming → Mempool StaticInputBuffer
unfolding fill_input get_memory put_memory
store_input m owner related sample =
    let (node, m1) = get_memory none m in fill_input m1 node owner related sample
