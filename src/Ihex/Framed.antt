-- ===== src/Ihex/Framed.antt =====
-- The frame of ihex_data_read: a relation between machines that the driver of the port and stores
-- of bytes keep is kept by it.
use cocoapuffs_fpga.Prelude.{ℕ, ◌+◌, ◌%◌, ◌^◌, List, [], ◌∷◌, leb, ◌==◌, literal}
use cocoapuffs_fpga.Machine.{Machine, store_byte, pure, halt, store8, ◌>>◌}
use cocoapuffs_fpga.Machine.Frame.{Keeps, Keeps-bind, Keeps-if}
use cocoapuffs_fpga.Uart.{Vsnprintf, printme, printmef, kprintf}
use cocoapuffs_fpga.Uart.Framed.{PortFrame, printme-Keeps, printmef-Keeps, kprintf-Keeps}
use cocoapuffs_fpga.Ihex.{
  Record, RecordType, data_record, end_of_file_record, other_record, Globals, copy_bytes,
  print_address, count_dot, read_data_record, end_dots, read_end_of_file, read_record,
  dots_per_line, ihex_data_read,
}

pub record LoaderFrame : Type 1 where
  pub port : PortFrame
  pub on_byte :
      (a b : ℕ) (m : Machine) → port.frame.Rel m (record m { trace = store_byte a b ∷ m.trace })

module _ (l : LoaderFrame) (vsnprintf : Vsnprintf) where
  open l use {port}
  open port use {frame as r}

  pub copy_bytes-Keeps : (a : ℕ) (bs : List ℕ) → Keeps r (copy_bytes a bs)
  unfolding copy_bytes store8
  copy_bytes-Keeps a [] m = r.same m
  copy_bytes-Keeps a (b ∷ bs) m =
      r.also (l.on_byte (a % 2 ^ 32) b m) (copy_bytes-Keeps (a + 1) bs _)

  -- A text printed, and a result.
  pub print_then :
      {A : Type 0} (format args : List ℕ) (a : A)
      → Keeps r (kprintf vsnprintf format args >> pure a)
  print_then format args a =
      Keeps-bind r (kprintf vsnprintf format args) (λ _. pure a)
        (kprintf-Keeps port vsnprintf format args) λ _ m. r.same m

  print_address-Keeps : (x : Record) (g : Globals) → Keeps r (print_address vsnprintf x g)
  unfolding print_address
  print_address-Keeps x g =
      Keeps-if r (g.dot_count == 0)
        (kprintf vsnprintf (literal "%08x: ") (x.address ∷ []) >> pure tt) (pure tt)
        (print_then (literal "%08x: ") (x.address ∷ []) tt) r.same

  count_dot-Keeps : (g : Globals) → Keeps r (count_dot vsnprintf g)
  unfolding count_dot
  count_dot-Keeps g =
      Keeps-bind r (kprintf vsnprintf (literal ".") []) _
        (kprintf-Keeps port vsnprintf (literal ".") [])
        λ _.
          Keeps-if r (leb dots_per_line (g.dot_count + 1))
            (kprintf vsnprintf (literal "\n") [] >> pure (record g { dot_count = 0 }))
            (pure (record g { dot_count = g.dot_count + 1 }))
            (print_then (literal "\n") [] (record g { dot_count = 0 })) r.same

  read_data_record-Keeps : (x : Record) (g : Globals) → Keeps r (read_data_record vsnprintf x g)
  unfolding read_data_record
  read_data_record-Keeps x g =
      Keeps-bind r (print_address vsnprintf x g) _ (print_address-Keeps x g) λ _.
        Keeps-bind r (copy_bytes x.address x.bytes) _ (copy_bytes-Keeps x.address x.bytes)
          λ _. count_dot-Keeps g

  end_dots-Keeps : (g : Globals) → Keeps r (end_dots vsnprintf g)
  unfolding end_dots
  end_dots-Keeps g =
      Keeps-if r (g.dot_count == 0) (pure g)
        (kprintf vsnprintf (literal "\n") [] >> pure (record g { dot_count = 0 })) r.same
        (print_then (literal "\n") [] (record g { dot_count = 0 }))

  read_end_of_file-Keeps : (g : Globals) → Keeps r (read_end_of_file vsnprintf g)
  unfolding read_end_of_file
  read_end_of_file-Keeps g = Keeps-bind r (end_dots vsnprintf g) _ (end_dots-Keeps g) λ g'.
      Keeps-bind r (printme (literal "EOF")) _ (printme-Keeps port (literal "EOF")) λ _. r.same

  read_record-Keeps : (x : Record) (g : Globals) → Keeps r (read_record vsnprintf x g)
  unfolding read_record
  read_record-Keeps x g = go x.type
    where
      go :
          (t : RecordType)
          → Keeps r (elim t [
            | data_record ↦ read_data_record vsnprintf x g
            | end_of_file_record ↦ read_end_of_file vsnprintf g
            | other_record ↦ pure g
          ])
      go data_record = read_data_record-Keeps x g
      go end_of_file_record = read_end_of_file-Keeps g
      go other_record = r.same

  pub ihex_data_read-Keeps : (x : Record) (g : Globals) → Keeps r (ihex_data_read vsnprintf x g)
  unfolding ihex_data_read
  ihex_data_read-Keeps x g =
      Keeps-bind r (read_record vsnprintf x g) _ (read_record-Keeps x g) λ g'.
        Keeps-if r x.checksum_error
          (printmef vsnprintf (literal "ihex err: line %d type: %d\n") (g'.line ∷ x.code ∷ [])
            >> halt)
          (pure (record g' { line = g'.line + 1 }))
          (Keeps-bind r
            (printmef vsnprintf (literal "ihex err: line %d type: %d\n") (g'.line ∷ x.code ∷ []))
            (λ _. halt) (printmef-Keeps port vsnprintf _ _) λ _. r.same)
          r.same
