-- ===== src/Asyncio/Released.antt =====
-- Symbols of ads_async/asyncio/client.py after their handle is released.
use ads_async.Prelude.{ℕ, ◌≡◌, refl, none, some}
use ads_async.Prelude.Result.{Result, ok, err, not_implemented}
use ads_async.Structs.Item.{Item}
use ads_async.Structs.SymbolEntry.{AdsSymbolEntry}
use ads_async.Structs.Text.{Text, Codec}
use ads_async.Asyncio.Values.{Decoded}
use ads_async.Asyncio.Symbols.{
  ClientSymbol, new_symbol, info_by_name, handle_by_name, with_info, initialize, read_value, read,
  release,
}

-- A symbol that knows its place, but has no handle, cannot be initialized.
located_not_readable :
    {S : Type 0} (codec : Codec) (write_and_read : Item → S → Result Item × S) (s : ClientSymbol)
    (w : S) (group offset : ℕ)
    → s.handle ≡ none
    → s.index_group ≡ some group
    → s.index_offset ≡ some offset
    → read codec write_and_read s w ≡ (err not_implemented, s, w)
unfolding read
located_not_readable codec write_and_read s w group offset h g o =
    rw (read, h, initialize, g, o) refl

module _ {S : Type 0} (codec : Codec) (write_and_read : Item → S → Result Item × S)
    (name : Text) where
  -- What `read` makes of a symbol that is looked up by name, once the information is found.
  abbrev pub looked_up :
      AdsSymbolEntry → Result ℕ × S → ClientSymbol → Result Decoded × ClientSymbol × S
  looked_up info (err e, w) s = (err e, with_info info s, w)
  looked_up info (ok handle, w) s =
      let (result, w') = read_value codec write_and_read (some handle) (some info) w in
      (result, record (with_info info s) { handle = some handle }, w')

  pub read-new_symbol :
      (w w1 : S) (info : AdsSymbolEntry) (rh : Result ℕ × S)
      → info_by_name codec write_and_read name w ≡ (ok info, w1)
      → handle_by_name codec write_and_read name w1 ≡ rh
      → read codec write_and_read (new_symbol (some name) none none) w
        ≡ looked_up info rh (new_symbol (some name) none none)
  unfolding read new_symbol
  read-new_symbol w w1 info (err e, w2) i h = rw (read, initialize, i, h) refl
  read-new_symbol w w1 info (ok handle, w2) i h = rw (read, initialize, i, h) refl

  -- The symbol after its first read, released: what matters of it.
  abbrev IsStuck : ClientSymbol → Type 0
  IsStuck s =
      (s.handle ≡ none)
      × ((group : ℕ) × (s.index_group ≡ some group))
      × ((offset : ℕ) × (s.index_offset ≡ some offset))

  IsStuck-released :
      (info : AdsSymbolEntry) (rh : Result ℕ × S)
      → IsStuck (release (looked_up info rh (new_symbol (some name) none none)).1).1
  unfolding release new_symbol
  IsStuck-released info (err e, w) = (refl, (info.index_group, refl), (info.index_offset, refl))
  IsStuck-released info (ok handle, w) = (refl, (info.index_group, refl), (info.index_offset, refl))

  -- A symbol that is looked up by name, and whose information its first read has found, cannot be read
  -- any more once it is released, nor when the request of its handle has failed: every later read raises
  -- `NotImplementedError`, sends nothing and changes nothing, whatever the server would answer.
  pub read_after_release :
      (write_and_read' : Item → S → Result Item × S) (w w1 w' : S) (info : AdsSymbolEntry)
      → info_by_name codec write_and_read name w ≡ (ok info, w1)
      → let s = (release (read codec write_and_read (new_symbol (some name) none none) w).1).1 in
        read codec write_and_read' s w' ≡ (err not_implemented, s, w')
  read_after_release write_and_read' w w1 w' info found =
      let rh = handle_by_name codec write_and_read name w1 in
      let e = read-new_symbol w w1 info rh found refl in
      rw e (
        stuck (release (looked_up info rh (new_symbol (some name) none none)).1).1
          (IsStuck-released info rh))
    where
      stuck :
          (s : ClientSymbol)
          → IsStuck s
          → read codec write_and_read' s w' ≡ (err not_implemented, s, w')
      stuck s (h, (group, g), (offset, o)) =
          located_not_readable codec write_and_read' s w' group offset h g o
