-- ===== src/Heap/Objects/Resources.antt =====
-- What the functions on connections and files leave: `init_conn`, `free_conn`, `read_file`,
-- `init_file_buf` and `thread_data`.
use btb.Heap.Laws.{
  part_blocks, nothing_new, Held, Held-append, malloc-Consumes, Frees, Leaves, >>=-Consumes,
  pure-Consumes, if-Consumes, Frees-Consumes, free-Frees, access-Frees, >>-Frees, >>-Frees_swap,
  returns,
}
use btb.Heap.Rules.{malloc_then-Consumes, access_all_then-Consumes}
use btb.Heap.Defer.{defer-Consumes}
use btb.Heap.Objects.{
  Owner, owner_blocks, blocks_or_null, ConnBlocks, conn_blocks, refused, opened, opened_blocks,
  connect_blocks, new_conn, free_conn, read_opened, read_file_blocks, free_file_buf,
  free_unless_null, new_file_buf, new_thread_data, free_thread_data, with_part,
}
use btb.Heap.Objects.Laws.{new_owner-Leaves, part-Holds_self}
use btb.Conn.{Connecting}
use btb.Base.{ℕ, refl, inl, inr, List, [], ◌∷◌, Option, none, some, Bool}

pub free_conn-Frees : (c : Option ConnBlocks) → Frees (blocks_or_null conn_blocks c) (free_conn c)
unfolding free_conn
free_conn-Frees none h xs ys d e = returns (d, e)
free_conn-Frees (some c) h xs ys d e =
    access-Frees (conn_blocks c) c.self _ (inr (inl refl))
      (>>-Frees (c.addr ∷ []) (c.self ∷ c.sockfd ∷ []) _ _ (free-Frees (some c.addr)) (
        access-Frees (c.self ∷ c.sockfd ∷ []) c.self _ (inl refl) (
          >>-Frees_swap (c.self ∷ []) (c.sockfd ∷ []) _ _ (free-Frees (some c.sockfd))
            (free-Frees (some c.self)))))
      h xs ys d e

connect_blocks-Leaves :
    (held : List ℕ) (e : Connecting) → Leaves held opened_blocks (connect_blocks e)
unfolding connect_blocks
connect_blocks-Leaves held e = malloc_then-Consumes [] held _ _ (λ sockfd.
    if-Consumes (sockfd ∷ []) held _ _ _ _
      (malloc_then-Consumes (sockfd ∷ []) held _ _ (λ self.
        malloc_then-Consumes (self ∷ sockfd ∷ []) held _ _ (λ addr.
          pure-Consumes held opened_blocks
            (opened (record { self = self; addr = addr; sockfd = sockfd })))))
      (pure-Consumes held opened_blocks (refused (some sockfd))))

pub new_conn-Leaves : (held : List ℕ) (e : Connecting) → Leaves held opened_blocks (new_conn e)
unfolding new_conn
new_conn-Leaves held e =
    if-Consumes [] held _ _ _ _
      (malloc_then-Consumes [] held _ _ (λ res.
        defer-Consumes (res ∷ []) held opened_blocks _ _ (free-Frees (some res))
          (connect_blocks-Leaves (res ∷ held) e)))
      (pure-Consumes held opened_blocks (refused none))

free_unless_null-Frees : (p : Option ℕ) → Frees (part_blocks p) (free_unless_null p)
unfolding free_unless_null
free_unless_null-Frees none h xs ys d e = returns (d, e)
free_unless_null-Frees (some p) h xs ys d e = free-Frees (some p) h xs ys d e

pub free_file_buf-Frees :
    (f : Option Owner) → Frees (blocks_or_null owner_blocks f) (free_file_buf f)
unfolding free_file_buf
free_file_buf-Frees none h xs ys d e = returns (d, e)
free_file_buf-Frees (some f) h xs ys d e =
    access-Frees (owner_blocks f) f.self _ (part-Holds_self f.part f.self [])
      (>>-Frees (part_blocks f.part) (f.self ∷ []) _ _ (free_unless_null-Frees f.part)
        (free-Frees (some f.self)))
      h xs ys d e

read_opened-Leaves :
    (held : List ℕ) (whole : Bool) → Leaves held (blocks_or_null owner_blocks) (read_opened whole)
unfolding read_opened
read_opened-Leaves held whole =
    >>=-Consumes [] held owner_blocks _ _ _ (new_owner-Leaves held) (λ f.
      if-Consumes (owner_blocks f) held _ _ _ _
        (pure-Consumes held (blocks_or_null owner_blocks) (some f))
        (>>=-Consumes (owner_blocks f) held nothing_new _ _ _
          (Frees-Consumes (owner_blocks f) held _ (free_file_buf-Frees (some f)))
          (λ u. pure-Consumes held (blocks_or_null owner_blocks) none)))

pub read_file_blocks-Leaves :
    (held : List ℕ) (opens whole : Bool)
    → Leaves held (blocks_or_null owner_blocks) (read_file_blocks opens whole)
unfolding read_file_blocks
read_file_blocks-Leaves held opens whole =
    if-Consumes [] held _ _ _ _
      (malloc_then-Consumes [] held _ _ (λ f.
        defer-Consumes (f ∷ []) held (blocks_or_null owner_blocks) _ _ (free-Frees (some f))
          (read_opened-Leaves (f ∷ held) whole)))
      (pure-Consumes held (blocks_or_null owner_blocks) none)

-- A file buffer that is made from a block in use has two blocks, which `free_file_buf` releases.
pub new_file_buf-Leaves :
    (held : List ℕ) (from : Option ℕ)
    → Held (part_blocks from) held
    → Leaves held owner_blocks (new_file_buf from)
unfolding new_file_buf
new_file_buf-Leaves held from there = malloc_then-Consumes [] held owner_blocks _ (λ self.
    malloc_then-Consumes (self ∷ []) held owner_blocks _ (λ part.
      access_all_then-Consumes (part ∷ self ∷ []) held owner_blocks from _
        (Held-append (part_blocks from) (part ∷ self ∷ []) held there)
        (pure-Consumes held owner_blocks (with_part self part))))

-- A `thread_data` is one block, which `free_thread_data` releases.
pub new_thread_data-Leaves : (held : List ℕ) → Leaves held (λ d. d ∷ []) new_thread_data
unfolding new_thread_data
new_thread_data-Leaves held = malloc-Consumes [] held

pub free_thread_data-Frees : (d : Option ℕ) → Frees (part_blocks d) (free_thread_data d)
unfolding free_thread_data
free_thread_data-Frees none h xs ys e live = returns (e, live)
free_thread_data-Frees (some d) h xs ys e live = free-Frees (some d) h xs ys e live
