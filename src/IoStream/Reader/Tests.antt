-- ===== src/IoStream/Reader/Tests.antt =====
-- Concrete runs, and the theorems at concrete inputs, with the constant 0 for the hash.
use libatbus_go.Base.{
  ℕ, ◌+◌, ◌≤◌, ◌<◌, ◌≢◌, ◌⊎◌, length, take, drop, ◌≡◌, refl, arith, List, [], ◌∷◌, ◌++◌, returns,
}
use libatbus_go.Buffer.Vint.{read_vint_loop, read_vint}
use libatbus_go.Buffer.Vint.Encoding.{high_groups}
use libatbus_go.IoStream.Frame.{unpack_frame, verify_hash, incomplete, uint32_value}
use libatbus_go.IoStream.Frame.Unpack.{HasHeader, accepted, rejected, unpacked}
use libatbus_go.IoStream.Reader.{
  FrameReader, new_frame_reader, grow, append_bytes, write, compact, consume, read_frame, available,
  reset,
}
use libatbus_go.IoStream.Reader.Contents.{IsValid, contents, write_lem}
use libatbus_go.IoStream.Reader.Refine.{read_frame-frame_of, read_frame_cases}

abbrev no_hash : List ℕ → ℕ
no_hash bytes = 0

-- A frame of two bytes, and the start of another one.
abbrev reader : FrameReader
reader = record { buf = 5 ∷ 0 ∷ 0 ∷ 0 ∷ 0 ∷ 2 ∷ 7 ∷ 8 ∷ 0 ∷ 0 ∷ []; read_pos = 1; write_pos = 10 }

reader-IsValid : IsValid reader
reader-IsValid = omega arith

write_run :
    write (new_frame_reader 2) (1 ∷ 2 ∷ 3 ∷ [])
    ≡ (3, record { buf = 1 ∷ 2 ∷ 3 ∷ 0 ∷ []; read_pos = 0; write_pos = 3 })
unfolding write grow append_bytes new_frame_reader
write_run = refl

read_run :
    read_frame no_hash reader
    ≡ returns (
      unpacked no_hash (7 ∷ 8 ∷ []),
      record { buf = 0 ∷ 0 ∷ 0 ∷ 0 ∷ 0 ∷ 2 ∷ 7 ∷ 8 ∷ 0 ∷ 0 ∷ []; read_pos = 0; write_pos = 2 },
    )
unfolding read_frame consume compact unpack_frame verify_hash read_vint read_vint_loop high_groups
read_run = refl

reset_run : available (reset reader) ≡ 0
unfolding available reset
reset_run = refl

write_lem_example :
    ((write reader (1 ∷ 2 ∷ [])).0 ≡ 2)
    × IsValid (write reader (1 ∷ 2 ∷ [])).1
    × (contents (write reader (1 ∷ 2 ∷ [])).1 ≡ contents reader ++ (1 ∷ 2 ∷ []))
write_lem_example = write_lem reader (1 ∷ 2 ∷ []) reader-IsValid

read_frame-frame_of_example :
    (r' : FrameReader) × (read_frame no_hash reader ≡ returns (unpacked no_hash (7 ∷ 8 ∷ []), r'))
    × IsValid r'
    × (contents r' ≡ 0 ∷ 0 ∷ [])
unfolding high_groups
read_frame-frame_of_example =
    read_frame-frame_of no_hash reader (7 ∷ 8 ∷ []) (0 ∷ 0 ∷ []) (omega arith) (omega arith)
      reader-IsValid refl

-- The same bytes, with another hash in front.
abbrev spoiled : FrameReader
spoiled = record { buf = 9 ∷ 0 ∷ 0 ∷ 0 ∷ 2 ∷ 7 ∷ 8 ∷ 3 ∷ []; read_pos = 0; write_pos = 8 }

spoiled-HasHeader : HasHeader (contents spoiled) 2 1
unfolding read_vint read_vint_loop
spoiled-HasHeader = record {
  slice_size = omega arith;
  long = omega arith;
  reads = refl;
  complete = omega arith;
}

read_frame_cases_example :
    let hash = uint32_value (take 4 (contents spoiled)) in
    let payload = take 2 (drop (4 + 1) (contents spoiled)) in
    ((length (contents spoiled) < 4 + 1 + 2)
      × (read_frame no_hash spoiled ≡ returns (incomplete, spoiled)))
    ⊎ (((4 + 1 + 2 ≤ length (contents spoiled))
          × (no_hash payload ≡ hash)
          × (r' : FrameReader) × (read_frame no_hash spoiled
              ≡ returns (accepted payload (4 + 1 + 2), r'))
          × IsValid r'
          × (contents r' ≡ drop (4 + 1 + 2) (contents spoiled)))
        ⊎ ((4 + 1 + 2 ≤ length (contents spoiled))
            × (no_hash payload ≢ hash)
            × (read_frame no_hash spoiled ≡ returns (rejected payload (4 + 1 + 2), spoiled))))
read_frame_cases_example =
    read_frame_cases no_hash spoiled 2 1 (omega arith) spoiled-HasHeader (omega arith)
