-- ===== src/Tests/Statistics.antt =====
-- The files of `/stats` over an empty registry.
use fusedrive_filesystem.Stats.Reads.{getattr-read, trigger_too_long}
use fusedrive_filesystem.Stats.{read, getattr, Attributes}
use fusedrive_filesystem.Metrics.{MetricsRegistry}
use fusedrive_filesystem.Metrics
use fusedrive_filesystem.Base.{
  basename, refl, ◌+◌, slice, length, false, ◌⊎◌, ◌<◌, ℕ, some, Option, arith, mem, text_beq, none,
  codes, lookup, Text, ◌≡◌,
}

abbrev registry : MetricsRegistry
registry = Metrics.new none

abbrev downloads : Text
downloads = codes "/stats/downloads"

getattr-read_example :
    ((getattr downloads registry ≡ none)
      × ((deadlock : Option (MetricsRegistry → MetricsRegistry)) (len offset : ℕ)
          → read deadlock downloads len offset registry ≡ (none, registry)))
    ⊎ ((content : Text) × (a : Attributes) × (getattr downloads registry ≡ some a)
        × (a.is_directory ≡ false)
        × (a.st_size ≡ length content)
        × ((deadlock : Option (MetricsRegistry → MetricsRegistry)) (len offset : ℕ)
            → read deadlock downloads len offset registry
              ≡ (some (slice offset (offset + len) content), registry)))
unfolding basename text_beq mem
getattr-read_example = getattr-read downloads registry refl refl

trigger_too_long_example :
    let path = codes "/stats/trigger_deadlock" in
    (content : Text) × (a : Attributes) × (getattr path registry ≡ some a)
    × ((read none path 4096 0 registry).0 ≡ some content)
    × (a.st_size < length content)
unfolding Metrics.new Metrics.get lookup
trigger_too_long_example = trigger_too_long none registry 4096 refl (omega arith)
