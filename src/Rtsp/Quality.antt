-- ===== src/Rtsp/Quality.antt =====
-- crates/vscreen-rtsp/src/quality.rs: the quality tiers of an audio stream.
use vscreen.Base.Text.{Text, codes, text_eq, to_lowercase}
use vscreen.Base.{
  Bool, Option, false, if◌then◌else◌, leb, none, not, some, true, ℕ, ◌%◌, ◌*◌, ◌==◌, ◌^◌, ◌||◌,
  nat_eq, string_eq,
}

pub data QualityTier : Type 0 where
  low : QualityTier
  medium : QualityTier
  standard : QualityTier
  high : QualityTier
  custom : ℕ → ℕ → QualityTier

unfoldable pub bitrate_bps : QualityTier → ℕ
bitrate_bps low = 32000
bitrate_bps medium = 64000
bitrate_bps standard = 128000
bitrate_bps high = 256000
bitrate_bps (custom kbps channels) = kbps * 1000 % 2 ^ 32

unfoldable pub bitrate_kbps : QualityTier → ℕ
bitrate_kbps low = 32
bitrate_kbps medium = 64
bitrate_kbps standard = 128
bitrate_kbps high = 256
bitrate_kbps (custom kbps channels) = kbps

unfoldable pub channels_of : QualityTier → ℕ
channels_of low = 1
channels_of medium = 1
channels_of standard = 2
channels_of high = 2
channels_of (custom kbps channels) = channels

unfoldable pub is_master : QualityTier → Bool
is_master high = true
is_master tier = false

unfoldable pub needs_transcode : QualityTier → Bool
unfolding is_master
needs_transcode tier = not (is_master tier)

unfoldable pub from_name : Text → Option QualityTier
from_name name =
    let lowered = to_lowercase name in
    if lowered == codes "low"
    then some low
    else if lowered == codes "medium" || lowered == codes "med"
    then some medium
    else if lowered == codes "standard" || lowered == codes "std"
    then some standard
    else if lowered == codes "high" || lowered == codes "hq"
    then some high
    else none

unfoldable pub custom_tier : ℕ → Option ℕ → QualityTier
custom_tier kbps none = custom kbps (if leb 96 kbps then 2 else 1)
custom_tier kbps (some channels) = custom kbps channels
