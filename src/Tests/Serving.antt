-- ===== src/Tests/Serving.antt =====
-- A process with three arguments, and a cache that keeps what it is given.
use fusedrive_filesystem.Base.{some, codes, refl, true, none, ◌∷◌, []}
use fusedrive_filesystem.Metadata.{Ttl}
use fusedrive_filesystem.Metadata.Contract.{KeepsAll, IsCache, memory_cache, memory_cache-IsCache}
use fusedrive_filesystem.Entry.{Process, Endings, keyboard_interrupt}

abbrev forever : Ttl
forever = record {
  live_ids = λ now d. d;
  live_metadata = λ now d. d;
  live_directories = λ now d. d;
}

forever-KeepsAll : KeepsAll forever
forever-KeepsAll = record {
  ids = λ now d. refl;
  metadata = λ now d. refl;
  directories = λ now d. refl;
}

memory_cache-IsCache_example : IsCache (memory_cache forever)
memory_cache-IsCache_example = memory_cache-IsCache forever forever-KeepsAll

abbrev process : Process
process = record {
  getenv = λ key. none;
  argv = codes "main" ∷ codes "/mnt" ∷ codes "key.json" ∷ [];
  exists = λ path. true;
  parse_int = λ text. none;
}

-- The user interrupts the mount, and then the shutdown.
abbrev impatient : Endings
impatient = record { mount = some keyboard_interrupt; shutdown = some keyboard_interrupt }
