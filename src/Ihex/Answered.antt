-- ===== src/Ihex/Answered.antt =====
-- ihex_data_read on a port that always has room: with a right checksum it returns.
use cocoapuffs_fpga.Prelude.{
  ℕ, ◌+◌, ◌%◌, ◌^◌, ◌≡◌, refl, subst, false, List, [], ◌∷◌, append-nil, leb, ◌==◌, codes, literal,
}
use cocoapuffs_fpga.Machine.{pure, ◌>>◌, store8}
use cocoapuffs_fpga.Uart.{Vsnprintf, printme, kprintf}
use cocoapuffs_fpga.Uart.Served.{Serve-store8}
use cocoapuffs_fpga.Uart.Served.Answered.{
  Answered, Answered-pure, Answered-bind, Answered-if, Answered-printme, Answered-kprintf, Sensible,
}
use cocoapuffs_fpga.Ihex.{
  Record, RecordType, data_record, end_of_file_record, other_record, Globals, copy_bytes,
  print_address, count_dot, read_data_record, end_dots, read_end_of_file, read_record,
  dots_per_line, ihex_data_read,
}
use cocoapuffs_fpga.Ihex.Loaded.{copied, image}

pub copy_bytes-Answered : (a : ℕ) (bs : List ℕ) → Answered (copy_bytes a bs) (copied a bs)
unfolding copy_bytes
copy_bytes-Answered a [] = Answered-pure tt
copy_bytes-Answered a (b ∷ bs) =
    Answered-bind (store8 (a % 2 ^ 32) b) (λ _. copy_bytes (a + 1) bs)
      (record { result = tt; answers = []; text = []; served = Serve-store8 (a % 2 ^ 32) b })
      λ _. copy_bytes-Answered (a + 1) bs

module _ (vsnprintf : Vsnprintf) (sensible : Sensible vsnprintf) where
  print_then :
      {A : Type 0} (format args : List ℕ) (a : A)
      → Answered (kprintf vsnprintf format args >> pure a) []
  print_then format args a =
      Answered-bind (kprintf vsnprintf format args) (λ _. pure a)
        (Answered-kprintf vsnprintf format args sensible) λ _. Answered-pure a

  print_address-Answered : (r : Record) (g : Globals) → Answered (print_address vsnprintf r g) []
  unfolding print_address
  print_address-Answered r g =
      Answered-if (g.dot_count == 0)
        (kprintf vsnprintf (literal "%08x: ") (r.address ∷ []) >> pure tt) (pure tt)
        (print_then (literal "%08x: ") (r.address ∷ []) tt) (Answered-pure tt)

  count_dot-Answered : (g : Globals) → Answered (count_dot vsnprintf g) []
  unfolding count_dot
  count_dot-Answered g =
      Answered-bind (kprintf vsnprintf (literal ".") []) _
        (Answered-kprintf vsnprintf (literal ".") [] sensible)
        λ _.
          Answered-if (leb dots_per_line (g.dot_count + 1))
            (kprintf vsnprintf (literal "\n") [] >> pure (record g { dot_count = 0 }))
            (pure (record g { dot_count = g.dot_count + 1 }))
            (print_then (literal "\n") [] (record g { dot_count = 0 })) (Answered-pure _)

  read_data_record-Answered :
      (r : Record) (g : Globals)
      → Answered (read_data_record vsnprintf r g) (copied r.address r.bytes)
  unfolding read_data_record
  read_data_record-Answered r g =
      subst (Answered (read_data_record vsnprintf r g)) (append-nil (copied r.address r.bytes)) (
        Answered-bind (print_address vsnprintf r g) _ (print_address-Answered r g) λ _.
          Answered-bind (copy_bytes r.address r.bytes) _ (copy_bytes-Answered r.address r.bytes)
            λ _. count_dot-Answered g)

  end_dots-Answered : (g : Globals) → Answered (end_dots vsnprintf g) []
  unfolding end_dots
  end_dots-Answered g =
      Answered-if (g.dot_count == 0) (pure g)
        (kprintf vsnprintf (literal "\n") [] >> pure (record g { dot_count = 0 })) (Answered-pure g)
        (print_then (literal "\n") [] (record g { dot_count = 0 }))

  read_end_of_file-Answered : (g : Globals) → Answered (read_end_of_file vsnprintf g) []
  unfolding read_end_of_file
  read_end_of_file-Answered g = Answered-bind (end_dots vsnprintf g) _ (end_dots-Answered g) λ g'.
      Answered-bind (printme (literal "EOF")) _
        (Answered-printme (literal "EOF") (codes "EOF") refl) λ _. Answered-pure _

  read_record-Answered : (r : Record) (g : Globals) → Answered (read_record vsnprintf r g) (image r)
  unfolding read_record
  read_record-Answered r g = go r.type
    where
      go :
          (t : RecordType)
          → Answered
              (elim t [
                | data_record ↦ read_data_record vsnprintf r g
                | end_of_file_record ↦ read_end_of_file vsnprintf g
                | other_record ↦ pure g
              ])
              (elim t [
                | data_record ↦ copied r.address r.bytes
                | end_of_file_record ↦ []
                | other_record ↦ []
              ])
      go data_record = read_data_record-Answered r g
      go end_of_file_record = read_end_of_file-Answered g
      go other_record = Answered-pure g

  -- With a right checksum ihex_data_read returns, and has stored the bytes of the record.
  pub ihex_data_read-Answered :
      (r : Record) (g : Globals)
      → r.checksum_error ≡ false
      → Answered (ihex_data_read vsnprintf r g) (image r)
  unfolding ihex_data_read
  ihex_data_read-Answered r g good =
      subst (Answered (ihex_data_read vsnprintf r g)) (append-nil (image r)) (
        Answered-bind (read_record vsnprintf r g) _ (read_record-Answered r g)
          λ g'. rw good (Answered-pure (record g' { line = g'.line + 1 })))
