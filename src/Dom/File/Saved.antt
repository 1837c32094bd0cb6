-- ===== src/Dom/File/Saved.antt =====
-- What `iks_save` puts into the file.
use iksemel.Base.{ℕ, Bool, true, false, Option, none, some, [], ◌++◌, Bytes, ◌≡◌}
use iksemel.Sax.Types.{iks_ok, iks_nomem}
use iksemel.Iks.Heap.{Heap}
use iksemel.Dom.File.{
  Opened, opened, no_file, other_error, Files, iks_file_noaccess, iks_file_rwerr,
}

-- The documented behaviour of the functions of <stdio.h> on a file of this name: a handle that is opened for
-- writing has nothing written, `fputs` that succeeds writes the string behind what is written, and behind
-- `fclose` that is what the file holds.
pub record Disk {W : Type 0} (fs : Files W) (fname : Bytes) : Type 0 where
  pub content : W → Bytes
  pub at_handle : ℕ → W → Bytes
  pub opens :
      (f : ℕ) (w after : W) → fs.open_write fname w ≡ (opened f, after) → at_handle f after ≡ []
  pub puts :
      (f : ℕ) (text : Bytes) (w after : W)
      → fs.puts f text w ≡ (true, after)
      → at_handle f after ≡ at_handle f w ++ text
  pub closes : (f : ℕ) (w : W) → content (fs.close f w) ≡ at_handle f w

abbrev handle_of : Opened → Option ℕ
handle_of (opened f) = some f
handle_of _ = none

-- how the text is saved, or why it is not
pub data Saved {W : Type 0} (fs : Files W) (fname : Bytes) (content : W → Bytes) (granted : Bool)
    (text : Bytes) (w : W) : ℕ × W → Type 0 where
  whole :
      (after : W)
      → granted ≡ true
      → content after ≡ text
      → Saved fs fname content granted text w (iks_ok, after)
  no_memory : granted ≡ false → Saved fs fname content granted text w (iks_nomem, w)
  not_opened :
      handle_of (fs.open_write fname w).0 ≡ none
      → Saved fs fname content granted text w (iks_file_noaccess, (fs.open_write fname w).1)
  not_written :
      (f : ℕ) (opened_world : W)
      → fs.open_write fname w ≡ (opened f, opened_world)
      → (fs.puts f text opened_world).0 ≡ false
      → Saved fs fname content granted text w
          (iks_file_rwerr, fs.close f (fs.puts f text opened_world).1)

module _ {W : Type 0} (fs : Files W) (fname : Bytes) (disk : Disk fs fname) (text : Bytes)
    (w : W) where
  open disk use {content, at_handle, opens, puts, closes}

  abbrev after_puts : ℕ → Bool × W → ℕ × W
  after_puts f (true, later) = (iks_ok, fs.close f later)
  after_puts f (false, later) = (iks_file_rwerr, fs.close f later)

  abbrev after_open : Opened × W → ℕ × W
  after_open (opened f, after) = after_puts f (fs.puts f text after)
  after_open (no_file, after) = (iks_file_noaccess, after)
  after_open (other_error, after) = (iks_file_noaccess, after)
