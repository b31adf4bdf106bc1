-- ===== src/Audio/Devices.antt =====
-- The device lists of crates/light-discord-platform/src/audio.rs. A device of cpal is its description
-- and its identifier, where the library gives them.
use light_discord.Common.{
  Bool, List, Option, Text, [], arith, false, if◌then◌else◌, is_empty, keep, none, not, refl, some,
  suc, text, text_eq, text_eq_iff, trim, true, ℕ, ◌&&◌, ◌++◌, ◌+◌, ◌||◌, ◌∙◌, ◌∷◌, ◌≡◌,
}
use light_discord.Common.Decimal.{decimal}
use light_discord.Audio.Group.{group}
use light_discord.Audio.Group.Counts.{owned, under, total-group-under}
use light_discord.Audio.Group.Laws.{Distinct, group-Distinct, total, total-group, any, any-group}

abbrev pub default_input_device_id : Text
default_input_device_id = text "default-input"

abbrev pub default_output_device_id : Text
default_output_device_id = text "default-output"

pub data AudioDeviceKind : Type 0 where
  input output : AudioDeviceKind

pub record AudioDeviceInfo : Type 0 where
  pub id : Text
  pub name : Text
  pub is_default : Bool
  -- usize
  pub grouped_count : ℕ

pub record CpalDevice : Type 0 where
  pub description : Option Text
  pub id : Option Text

abbrev pub id_prefix : AudioDeviceKind → Text
id_prefix input = text "input"
id_prefix output = text "output"

abbrev pub default_device_id : AudioDeviceKind → Text
default_device_id input = default_input_device_id
default_device_id output = default_output_device_id

-- `{:?}`
abbrev pub debug : AudioDeviceKind → Text
debug input = text "Input"
debug output = text "Output"

unfoldable pub filter_name : Option Text → Option Text
filter_name none = none
filter_name (some t) = if is_empty (trim t) then none else some (trim t)

unfoldable pub device_name : CpalDevice → Option Text
unfolding filter_name
device_name d = filter_name d.description

abbrev pub device_id : CpalDevice → Option Text
device_id d = d.id

-- Phase 1, what a device adds to the entry with its identifier.
unfoldable pub merge_id : AudioDeviceInfo → AudioDeviceInfo → AudioDeviceInfo
merge_id device entry = record entry {
  grouped_count = entry.grouped_count + device.grouped_count;
  is_default = if device.is_default && not entry.is_default then true else entry.is_default;
}

-- Phase 2, what it adds to the entry with its name.
unfoldable pub merge_name : AudioDeviceInfo → AudioDeviceInfo → AudioDeviceInfo
merge_name device entry =
    let takes_over = device.is_default && not entry.is_default in
    record entry {
      grouped_count = entry.grouped_count + device.grouped_count;
      is_default = if takes_over then true else entry.is_default;
      id = if takes_over then device.id else entry.id;
    }

abbrev pub id_of : AudioDeviceInfo → Text
id_of d = d.id

abbrev pub name_of : AudioDeviceInfo → Text
name_of d = d.name

unfoldable pub is_system_default : AudioDeviceInfo → Bool
is_system_default d = text_eq d.id default_input_device_id || text_eq d.id default_output_device_id

abbrev pub is_concrete : AudioDeviceInfo → Bool
is_concrete d = not (is_system_default d)

unfoldable pub deduplicate_devices : List AudioDeviceInfo → List AudioDeviceInfo
unfolding is_system_default
deduplicate_devices devices =
    keep is_system_default devices
    ++ group name_of merge_name (group id_of merge_id (keep is_concrete devices))

abbrev or_text : Option Text → Text → Text
or_text none d = d
or_text (some t) d = t

abbrev same_id : Option Text → Text → Bool
same_id none id = false
same_id (some d) id = text_eq d id

-- The entry of the device at `index`.
unfoldable pub device_info : AudioDeviceKind → Option Text → ℕ → CpalDevice → AudioDeviceInfo
unfolding device_name decimal
device_info kind default_id index d =
    let id = or_text (device_id d) (id_prefix kind ++ text ":" ++ decimal index) in
    record {
      id = id;
      name = or_text (device_name d) (text "Unnamed " ++ debug kind ++ text " " ++ decimal index);
      is_default = same_id default_id id;
      grouped_count = 1;
    }

unfoldable pub device_infos :
    AudioDeviceKind → Option Text → ℕ → List CpalDevice → List AudioDeviceInfo
unfolding device_info
device_infos kind default_id index [] = []
device_infos kind default_id index (d ∷ ds) =
    device_info kind default_id index d ∷ device_infos kind default_id (suc index) ds

-- The alias that stands for the default device, when that has a name.
unfoldable pub system_default : AudioDeviceKind → Option Text → List AudioDeviceInfo
system_default kind none = []
system_default kind (some name) =
    record {
      id = default_device_id kind;
      name = text "System default (" ++ name ++ text ")";
      is_default = false;
      grouped_count = 1;
    }
    ∷ []

abbrev optional {ℓ κ} : {A : Type ℓ} {B : Type κ} → (A → Option B) → Option A → Option B
optional f none = none
optional f (some a) = f a

unfoldable pub collect_devices :
    AudioDeviceKind → List CpalDevice → Option CpalDevice → List AudioDeviceInfo
unfolding system_default device_infos deduplicate_devices device_name
collect_devices kind devices default_device = deduplicate_devices (
    system_default kind (optional device_name default_device)
    ++ device_infos kind (optional device_id default_device) 0 devices)

abbrev count_of : AudioDeviceInfo → ℕ
count_of d = d.grouped_count

abbrev default_of : AudioDeviceInfo → Bool
default_of d = d.is_default

-- The counts of the devices whose identifier is first that of a device with the name `k`.
abbrev pub counted : Text → List AudioDeviceInfo → ℕ
counted k devices = total (owned id_of name_of count_of k devices) devices

-- The aliases of the system come first and as they were. Of the other entries no two have a name in
-- common, and the entry of a name counts all devices of that name, where devices with one identifier
-- have the name of the first of them. The counts add up to those of the list, and one entry is the
-- default exactly when one device was.
abbrev pub IsGrouped : List AudioDeviceInfo → List AudioDeviceInfo → Type 0
IsGrouped devices result =
    (grouped : List AudioDeviceInfo) × (result ≡ keep is_system_default devices ++ grouped)
    × Distinct name_of merge_name grouped
    × ((k : Text)
        → total (under id_of name_of count_of k) grouped ≡ counted k (keep is_concrete devices))
    × (total count_of grouped ≡ total count_of (keep is_concrete devices))
    × (any default_of grouped ≡ any default_of (keep is_concrete devices))

default_joins : (d x : Bool) → (if d && not x then true else x) ≡ (x || d)
default_joins d x = ground arith

under-merge_name :
    (k : Text) (d x : AudioDeviceInfo)
    → text_eq x.name d.name ≡ true
    → under id_of name_of count_of k (merge_name d x)
      ≡ under id_of name_of count_of k x + under id_of name_of count_of k d
unfolding merge_name
under-merge_name k d x same = ground (arith, same, text_eq_iff x.name d.name)

-- The deduplicated list has the aliases of the system first and as they were. Of the other entries
-- no two have a name in common, and the entry of a name counts all devices of that name, so that
-- every device that counts has an entry; devices with one identifier have the name of the first of
-- them. The counts add up to those of the list, and one entry is the default exactly when one
-- device was.
pub deduplicate_devices-IsGrouped :
    (devices : List AudioDeviceInfo) → IsGrouped devices (deduplicate_devices devices)
unfolding deduplicate_devices merge_id merge_name
deduplicate_devices-IsGrouped devices = (
  group name_of merge_name by_id,
  refl,
  group-Distinct name_of merge_name (λ d x. refl) by_id,
  λ k.
      total-group name_of merge_name (λ d x. refl) (under id_of name_of count_of k)
        (under-merge_name k) by_id
      ∙ total-group-under id_of name_of count_of merge_id (λ d x. refl) (λ d x. refl) (λ d x. refl)
          k (keep is_concrete devices),
  total-group name_of merge_name (λ d x. refl) count_of (λ d x _. refl) by_id
      ∙ total-group id_of merge_id (λ d x. refl) count_of (λ d x _. refl)
          (keep is_concrete devices),
  any-group name_of merge_name (λ d x. refl) default_of
        (λ d x. default_joins d.is_default x.is_default) by_id
      ∙ any-group id_of merge_id (λ d x. refl) default_of
          (λ d x. default_joins d.is_default x.is_default) (keep is_concrete devices),
)
  where
    by_id : List AudioDeviceInfo
    by_id = group id_of merge_id (keep is_concrete devices)
