-- ===== src/Tests/Access.antt =====
-- The theorems on file positions and thread-local storage at concrete values.
use tew.Base.{ℕ, true, false, none, [], ◌∷◌, Dict, arith}
use tew.State.{World, CrtState, FileHandleEntry}
use tew.Files.Access.{read_file, write_file}
use tew.Files.Seek.{lread, llseek, set_file_pointer}
use tew.Files.Placed.{IsPlaced, IsPlacedIn}
use tew.Files.Positions.{AllPlaced}
use tew.Files.Seeking.{access-AllPlaced}
use tew.Tests.Demo.{demo_native, demo_name, demo_files, demo_state, demo_call}

abbrev readable_entry : FileHandleEntry
readable_entry = record {
  path = demo_name;
  contents = 1 ∷ 2 ∷ 3 ∷ 4 ∷ [];
  position = 1;
  writable = false;
  fd = none;
  readable = true;
}

abbrev reading_state : CrtState
reading_state = record demo_state { files = record demo_files { entry = λ r. readable_entry } }

-- ReadFile(0x300, 0x2000, 2, NULL, NULL)
abbrev reading : World ℕ
reading = record (demo_call (0 ∷ 0x300 ∷ 0x2000 ∷ 2 ∷ 0 ∷ 0 ∷ [])) { state = reading_state }

reading_state-AllPlaced : AllPlaced reading_state
unfolding IsPlaced IsPlacedIn
reading_state-AllPlaced = record { at_place = λ r. omega arith }

access-AllPlaced_example :
    AllPlaced ((read_file reading).1.state)
    × AllPlaced ((write_file reading).1.state)
    × AllPlaced ((lread reading).1.state)
    × AllPlaced ((llseek reading).1.state)
    × AllPlaced ((set_file_pointer reading).1.state)
access-AllPlaced_example = access-AllPlaced reading reading_state-AllPlaced

abbrev stores : Dict ℕ (Dict ℕ ℕ)
stores = (1, (3, 10) ∷ []) ∷ (2, (3, 20) ∷ []) ∷ []
