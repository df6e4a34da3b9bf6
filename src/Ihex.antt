-- ===== src/Ihex.antt =====
-- lib/ihex/ihex.cc and lib/ihex/ihex.h: what the loader does with each record of an Intel HEX
-- stream. The library kk_ihex, which decodes the stream, calls it back once for each record.
pub mod Loaded
pub mod Framed
pub mod Answered
mod Tests
use cocoapuffs_fpga.Prelude.{
  ℕ, ◌+◌, ◌%◌, ◌^◌, Bool, true, List, [], ◌∷◌, ◌==◌, leb, if◌then◌else◌, literal,
}
use cocoapuffs_fpga.Machine.{M, pure, halt, ◌>>=◌, ◌>>◌, store8}
use cocoapuffs_fpga.Uart.{Vsnprintf, printme, printmef, kprintf}

-- ihex_record_type_t, by the two constants that the code compares with.
pub data RecordType : Type 0 where
  data_record : RecordType
  end_of_file_record : RecordType
  other_record : RecordType

-- One call of ihex_data_read: `address` is IHEX_LINEAR_ADDRESS(ihex), `offset` is ihex->address,
-- and `bytes` are the ihex->length bytes at ihex->data. `code` is `type` as a number.
pub record Record : Type 0 where
  pub type : RecordType
  pub code : ℕ
  pub address : ℕ
  pub offset : ℕ
  pub bytes : List ℕ
  pub line_length : ℕ
  pub checksum_error : Bool

-- gEof, line and dot_count.
pub record Globals : Type 0 where
  pub eof : Bool
  pub line : ℕ
  pub dot_count : ℕ

-- The dots on one line.
abbrev pub dots_per_line : ℕ
dots_per_line = 40

-- `address[i] = ihex->data[i]` for each `i`, from an address on.
unfoldable pub copy_bytes : ℕ → List ℕ → M (Unit {0})
copy_bytes address [] = pure tt
copy_bytes address (b ∷ bytes) = store8 (address % 2 ^ 32) b >> copy_bytes (address + 1) bytes

module _ (vsnprintf : Vsnprintf) where
  print_address : Record → Globals → M (Unit {0})
  print_address r g =
      if g.dot_count == 0
      then kprintf vsnprintf (literal "%08x: ") (r.address ∷ []) >> pure tt
      else pure tt

  -- The dot and what follows it.
  count_dot : Globals → M Globals
  count_dot g = do
    kprintf vsnprintf (literal ".") []
    let dots = g.dot_count + 1
    (if leb dots_per_line dots
        then kprintf vsnprintf (literal "\n") [] >> pure (record g { dot_count = 0 })
        else pure (record g { dot_count = dots }))

  read_data_record : Record → Globals → M Globals
  unfolding print_address count_dot
  read_data_record r g = do print_address r g; copy_bytes r.address r.bytes; count_dot g

  end_dots : Globals → M Globals
  end_dots g =
      if g.dot_count == 0
      then pure g
      else kprintf vsnprintf (literal "\n") [] >> pure (record g { dot_count = 0 })

  read_end_of_file : Globals → M Globals
  unfolding end_dots
  read_end_of_file g = do g' ← end_dots g; printme (literal "EOF"); pure (record g' { eof = true })

  read_record : Record → Globals → M Globals
  unfolding read_data_record read_end_of_file
  read_record r g = elim r.type [
    | data_record ↦ read_data_record r g
    | end_of_file_record ↦ read_end_of_file g
    | other_record ↦ pure g
  ]

  -- ihex_data_read; it returns true if it returns, so the model returns what it left in the globals.
  unfoldable pub ihex_data_read : Record → Globals → M Globals
  unfolding read_record
  ihex_data_read r g = do
    g' ← read_record r g
    (if r.checksum_error
        then printmef vsnprintf (literal "ihex err: line %d type: %d\n") (g'.line ∷ r.code ∷ [])
          >> halt
        else pure (record g' { line = g'.line + 1 }))
