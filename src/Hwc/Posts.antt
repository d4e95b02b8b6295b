-- ===== src/Hwc/Posts.antt =====
-- hwc/hwc.c: omap4_hwc_set, and what the event thread changes.
use camerahal.Common.{ℕ, ◌-◌, ◌/◌, ◌%◌, Bool, true, false, not, ◌&&◌, ◌||◌, ◌==◌, if◌then◌else◌}
use camerahal.Hwc.{Transform, External, Device}

-- What the calls of omap4_hwc_set answer: whether there is a display and a surface, whether the buffers
-- are swapped, the code of Post2, and the error of the wait.
pub record Posting : Type 0 where
  pub shows : Bool
  pub swaps : Bool
  pub post2 : ℕ
  pub wait : ℕ

pub data SetError : Type 0 where
  no_error egl_error : SetError
  post2_error wait_error : ℕ → SetError

posting_error : Device → Posting → SetError
posting_error dev p =
    if not p.shows
    then no_error
    else if not (p.post2 == 0)
    then post2_error p.post2
    else if not dev.use_sgx && not (p.wait == 0)
    then wait_error p.wait
    else no_error

-- omap4_hwc_set: with whether a new composition is asked for.
unfoldable pub set : Device → Posting → Device × SetError × Bool
unfolding posting_error
set dev p =
    let invalidate = not (dev.ext_ovls_wanted == 0) && dev.ext_ovls == 0 in
    if p.shows && dev.use_sgx && not p.swaps then (dev, egl_error, invalidate) else (
      record dev {
        force_sgx = if p.shows then dev.force_sgx - 1 else dev.force_sgx;
        last_ext_ovls = dev.ext_ovls;
        last_int_ovls = dev.post2_layers;
      },
      posting_error dev p,
      invalidate,
    )

-- The settings that handle_hotplug reads, whether no mode can be set for mirroring, and whether the
-- display is a TV.
pub record HotplugSettings : Type 0 where
  pub docking_enabled : Bool
  pub mirroring_enabled : Bool
  pub docking_transform : ℕ
  pub mirroring_transform : ℕ
  pub no_mirror_mode : Bool
  pub finds_tv : Bool

abbrev pub transform_of : ℕ → Bool → Bool → Transform
transform_of value enabled docking = record {
  rotation = value % 4;
  hflip = value / 4 % 2 == 1;
  enabled = enabled;
  docking = docking;
}

-- handle_hotplug.
unfoldable pub hotplug : External → HotplugSettings → External
hotplug ext p =
    let unplugged = record ext {
      dock = record ext.dock { enabled = false };
      mirror = record ext.mirror { enabled = false };
    } in
    let dock = transform_of p.docking_transform p.docking_enabled true in
    let mirror = transform_of p.mirroring_transform p.mirroring_enabled false in
    let forced = ext.force_dock in
    let tries = not forced && p.mirroring_enabled in
    if not ext.hdmi_state then unplugged else record ext {
      dock = if forced then record dock { rotation = 0; hflip = false } else dock;
      mirror = record mirror { enabled = tries && not p.no_mirror_mode };
      current = if tries then mirror else ext.current;
      on_tv = ext.on_tv || tries && not p.no_mirror_mode && p.finds_tv;
    }

-- handle_uevents, with the switch that changed: that of the dock or that of HDMI.
unfoldable pub switch_event : Device → Bool → Bool → HotplugSettings → Device
unfolding hotplug
switch_event dev is_dock state p = record dev {
  ext =
      hotplug
        (if is_dock
          then record dev.ext { force_dock = state }
          else record dev.ext { hdmi_state = state })
        p;
}

-- The timeout of omap4_hwc_hdmi_thread: with whether a new composition is asked for.
unfoldable pub idle_timeout : Device → Device × Bool
idle_timeout dev =
    if dev.force_sgx == 0 && dev.ovls_blending
    then (record dev { force_sgx = 2 }, true)
    else (dev, false)
