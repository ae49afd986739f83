-- ===== src/Seek/Files.antt =====
-- seek/src/windows/mod.rs: `Read`, over the calls of WinRT that it makes, which are an interface.
pub mod Slices
mod Tests
use kiruna.Base.{ℕ, u32, List, Bool, Result, ok, err, Outcome, returns, panics, Fault, ◌>>=◌}
use kiruna.Seek.{fix_path}
use kiruna.Seek.Front.{Imp}

-- What an asynchronous read comes to: the buffer that the operation returns, and what it leaves in
-- the buffer that it was given.
pub record Filled : Type 0 where
  pub returned : List ℕ
  pub given : List ℕ

-- An asynchronous call: its start may fail, and what is awaited.
abbrev pub Async : Type 0 → Type 0 → Type 0
Async A E = Result (Result A E) E

-- The calls of WinRT. A stream carries its position; `Size` of the properties may fail again.
pub record Winrt (E File Stream : Type 0) : Type 0 where
  pub get_file_from_path : List ℕ → Async File E
  pub get_basic_properties : File → Async (Result ℕ E) E
  pub open_sequential_read : File → Async Stream E
  pub open_read : File → Async Stream E
  pub create_buffer : ℕ → Result (Unit {0}) E
  pub read_async : Stream → ℕ → Result (Result Filled E × Stream) E
  pub seek : Stream → ℕ → Result Stream E
  pub close : Stream → Result (Unit {0}) E

-- `Read`
pub record Read (Stream : Type 0) : Type 0 where
  pub input_stream : Stream
  pub initial_path : List ℕ

-- `unwrap`
abbrev pub unwrapped : {A E : Type 0} → Result A E → Outcome A
unwrapped (ok a) = returns a
unwrapped (err e) = panics Fault.unwrap_err

-- The operator `?`, behind a call that may panic.
infixl 5 ◌>>?◌
abbrev pub ◌>>?◌ :
    {A B E : Type 0} → Outcome (Result A E) → (A → Outcome (Result B E)) → Outcome (Result B E)
returns (ok a) >>? f = f a
returns (err e) >>? f = returns (err e)
panics e >>? f = panics e

-- `op()?` and `.await`
abbrev pub awaited : {A E : Type 0} → Async A E → Outcome (Result A E)
awaited (ok r) = returns r
awaited (err e) = returns (err e)

module _ {E File Stream : Type 0} (w : Winrt E File Stream) (is_relative : List ℕ → Bool)
    (absolute : List ℕ → List ℕ) where
  -- `Read::all`, with the cast of the size.
  unfoldable pub all : List ℕ → Outcome (Result (List ℕ) E)
  all path =
      unwrapped (w.get_file_from_path (fix_path is_relative absolute path)) >>= λ storage_file.
      returns storage_file >>? λ file. awaited (w.get_basic_properties file) >>? λ size.
      awaited (w.open_sequential_read file) >>? λ input_stream. unwrapped size >>= λ capacity.
      returns (w.create_buffer (u32 capacity)) >>? λ buffer.
      returns (w.read_async input_stream (u32 capacity)) >>? λ (read_buffer, stream).
      returns read_buffer >>? λ filled.
      returns (w.close stream) >>? λ closed. returns (ok filled.returned)

  -- `Read::new`
  unfoldable pub new : List ℕ → Outcome (Result (Read Stream) E)
  new orig_path =
      unwrapped (w.get_file_from_path (fix_path is_relative absolute orig_path)) >>= λ storage_file.
      returns storage_file >>? λ file. awaited (w.open_read file) >>? λ stream.
      returns (ok (record { input_stream = stream; initial_path = orig_path }))

  -- `Read::async_clone`
  unfoldable pub async_clone : Read Stream → Outcome (Result (Read Stream) E)
  unfolding new
  async_clone r = new r.initial_path

module _ {E File Stream : Type 0} (w : Winrt E File Stream) where
  -- `Read::read`: the bytes are those of the buffer that it made.
  unfoldable pub read : ℕ → ℕ → Read Stream → Outcome (Result (List ℕ) E × Read Stream)
  read offset size r = unwrapped (w.seek r.input_stream offset) >>= λ stream.
      elim (w.create_buffer (u32 size)) [
        | err e ↦ returns (err e, record r { input_stream = stream })
        | ok buffer ↦ elim (w.read_async stream (u32 size)) [
          | err e ↦ returns (err e, record r { input_stream = stream })
          | ok (err e, after) ↦ returns (err e, record r { input_stream = after })
          | ok (ok filled, after) ↦ returns (ok filled.given, record r { input_stream = after })
        ]
      ]

  -- `Drop`
  unfoldable pub drop : Read Stream → Outcome (Unit {0})
  drop r = unwrapped (w.close r.input_stream)

-- `use crate::windows as imp`
abbrev pub windows :
    {E File Stream : Type 0}
    → Winrt E File Stream
    → (List ℕ → Bool)
    → (List ℕ → List ℕ)
    → Imp E (Read Stream)
windows w is_relative absolute = record {
  all = λ path priority. all w is_relative absolute path;
  new = λ path priority. new w is_relative absolute path;
  read = read w;
  async_clone = λ r priority. async_clone w is_relative absolute r;
}
