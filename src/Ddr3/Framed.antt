-- ===== src/Ddr3/Framed.antt =====
-- The frame of the DDR3 loader: a relation between machines that the driver of the port and stores of
-- bytes keep is kept by its handler and by its loop.
use cocoapuffs_fpga.Prelude.{ℕ, zero, suc, ◌+◌, ◌%◌, ◌^◌, Bool, true, false, List, [], ◌∷◌, literal}
use cocoapuffs_fpga.Machine.{pure, halt, ◌>>◌}
use cocoapuffs_fpga.Machine.Frame.{Keeps, Keeps-bind, Keeps-if, final-if}
use cocoapuffs_fpga.Uart.{Vsnprintf, buffer_size, uart_getline, printme, kprintf}
use cocoapuffs_fpga.Uart.Framed.{uart_getline-Keeps, printme-Keeps, kprintf-Keeps}
use cocoapuffs_fpga.Ihex.{
  Record, RecordType, data_record, end_of_file_record, other_record, copy_bytes,
}
use cocoapuffs_fpga.Ihex.Framed.{LoaderFrame, copy_bytes-Keeps, print_then}
use cocoapuffs_fpga.Upload.{KkIhex, before_nul}
use cocoapuffs_fpga.Ddr3.{
  ram_start, load_record, handle_record, ihex_data_read, budget, handle_records, use_line,
  load_line, load_lines, load_stream,
}

module _ (l : LoaderFrame) (vsnprintf : Vsnprintf) where
  open l use {port}
  open port use {frame as r}

  load_record-Keeps : (x : Record) → Keeps r (load_record vsnprintf x)
  unfolding load_record
  load_record-Keeps x =
      Keeps-bind r (kprintf vsnprintf _ _) _ (kprintf-Keeps port vsnprintf _ _) λ _.
        Keeps-bind r (copy_bytes ((x.address + ram_start) % 2 ^ 32) x.bytes) _
          (copy_bytes-Keeps l vsnprintf _ x.bytes) λ _. print_then l vsnprintf (literal "\n") [] tt

  handle_record-Keeps : (x : Record) (eof : Bool) → Keeps r (handle_record vsnprintf x eof)
  unfolding handle_record
  handle_record-Keeps x eof = go x.type
    where
      go :
          (t : RecordType)
          → Keeps r (elim t [
            | data_record ↦ load_record vsnprintf x >> pure eof
            | end_of_file_record ↦ printme (literal "EOF") >> pure true
            | other_record ↦ pure eof
          ])
      go data_record = Keeps-bind r (load_record vsnprintf x) _ (load_record-Keeps x) λ _. r.same
      go end_of_file_record =
          Keeps-bind r (printme (literal "EOF")) _ (printme-Keeps port (literal "EOF")) λ _. r.same
      go other_record = r.same

  -- A message, and the endless loop.
  message_then_halt : (A : Type 0) (text : List ℕ) → Keeps r (printme text >> halt {A = A})
  message_then_halt A text =
      Keeps-bind r (printme text) (λ _. halt) (printme-Keeps port text) λ _. r.same

  pub ihex_data_read-Keeps : (x : Record) (eof : Bool) → Keeps r (ihex_data_read vsnprintf x eof)
  unfolding ihex_data_read
  ihex_data_read-Keeps x eof =
      Keeps-if r x.checksum_error (printme (literal "ihex err") >> halt)
        (handle_record vsnprintf x eof) (message_then_halt Bool (literal "ihex err"))
        (handle_record-Keeps x eof)

  module _ (kk : KkIhex) where
    open kk use {State, begin_read, read_bytes, end_read}

    pub handle_records-Keeps :
        (rs : List Record) (eof : Bool) → Keeps r (handle_records vsnprintf kk rs eof)
    unfolding handle_records
    handle_records-Keeps [] eof = r.same
    handle_records-Keeps (x ∷ rs) eof =
        Keeps-bind r (ihex_data_read vsnprintf x eof) (handle_records vsnprintf kk rs)
          (ihex_data_read-Keeps x eof) (handle_records-Keeps rs)

    pub use_line-Keeps :
        (ok : Bool) (buf : List ℕ) (s : State) (eof : Bool)
        → Keeps r (use_line vsnprintf kk ok buf s eof)
    unfolding use_line
    use_line-Keeps false buf s eof = message_then_halt (State × Bool) (literal "1 err")
    use_line-Keeps true buf s eof =
        Keeps-bind r (handle_records vsnprintf kk (read_bytes s (before_nul buf)).0 eof) _
          (handle_records-Keeps (read_bytes s (before_nul buf)).0 eof) λ _. r.same

    load_line-Keeps : port.Gets → (s : State) (eof : Bool) → Keeps r (load_line vsnprintf kk s eof)
    unfolding load_line
    load_line-Keeps gets s eof =
        Keeps-bind r (uart_getline buffer_size) _ (uart_getline-Keeps port gets buffer_size)
          λ x. use_line-Keeps x.0 x.1 s eof

    load_lines-Keeps :
        port.Gets → (n : ℕ) (s : State) (eof : Bool) → Keeps r (load_lines vsnprintf kk n s eof)
    unfolding load_lines
    load_lines-Keeps gets zero s eof m = r.same m
    load_lines-Keeps gets (suc n) s eof m = final-if r eof _ _ m (r.same m) (
        Keeps-bind r (load_line vsnprintf kk s eof) (λ x. load_lines vsnprintf kk n x.0 x.1)
          (load_line-Keeps gets s eof) (λ x. load_lines-Keeps gets n x.0 x.1) m)

    pub load_stream-Keeps : port.Gets → Keeps r (load_stream vsnprintf kk)
    unfolding load_stream
    load_stream-Keeps gets m =
        Keeps-bind r (load_lines vsnprintf kk (suc (budget m)) begin_read false) _
          (load_lines-Keeps gets (suc (budget m)) begin_read false)
          (λ x. handle_records-Keeps (end_read x.0) x.1) m
