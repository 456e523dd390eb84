-- ===== src/Input/Axes.antt =====
-- rkvm-master/rkvm-input/src/abs.rs, rel.rs and sync.rs: axes, tools and the ends of packets, with the
-- constants of the kernel's headers that they are written as, and the arms of `from_raw`.
use nexus_kvm.Base.{String, List, [], ◌∷◌}

pub data RelAxis : Type 0 where
  x y z rx ry rz h_wheel dial wheel misc wheel_hi_res h_wheel_hi_res : RelAxis

unfoldable pub rel_constant : RelAxis → String
rel_constant x = "REL_X"
rel_constant y = "REL_Y"
rel_constant z = "REL_Z"
rel_constant rx = "REL_RX"
rel_constant ry = "REL_RY"
rel_constant rz = "REL_RZ"
rel_constant h_wheel = "REL_HWHEEL"
rel_constant dial = "REL_DIAL"
rel_constant wheel = "REL_WHEEL"
rel_constant misc = "REL_MISC"
rel_constant wheel_hi_res = "REL_WHEEL_HI_RES"
rel_constant h_wheel_hi_res = "REL_HWHEEL_HI_RES"

unfoldable pub rel_arms : List (String × RelAxis)
rel_arms =
    ("REL_X", x)
    ∷ ("REL_Y", y)
    ∷ ("REL_Z", z)
    ∷ ("REL_RX", rx)
    ∷ ("REL_RY", ry)
    ∷ ("REL_RZ", rz)
    ∷ ("REL_HWHEEL", h_wheel)
    ∷ ("REL_DIAL", dial)
    ∷ ("REL_WHEEL", wheel)
    ∷ ("REL_MISC", misc)
    ∷ ("REL_WHEEL_HI_RES", wheel_hi_res)
    ∷ ("REL_HWHEEL_HI_RES", h_wheel_hi_res)
    ∷ []

pub data AbsAxis : Type 0 where
  x y z rx ry rz throttle rudder wheel gas brake hat0_x hat0_y hat1_x hat1_y hat2_x : AbsAxis
  hat2_y hat3_x hat3_y pressure distance tilt_x tilt_y tool_width volume profile : AbsAxis
  misc mt_slot mt_touch_major mt_touch_minor mt_width_major mt_width_minor : AbsAxis
  mt_orientation mt_position_x mt_position_y mt_blob_id mt_tracking_id mt_pressure : AbsAxis
  mt_distance mt_tool_x mt_tool_y : AbsAxis

unfoldable pub abs_constant : AbsAxis → String
abs_constant x = "ABS_X"
abs_constant y = "ABS_Y"
abs_constant z = "ABS_Z"
abs_constant rx = "ABS_RX"
abs_constant ry = "ABS_RY"
abs_constant rz = "ABS_RZ"
abs_constant throttle = "ABS_THROTTLE"
abs_constant rudder = "ABS_RUDDER"
abs_constant wheel = "ABS_WHEEL"
abs_constant gas = "ABS_GAS"
abs_constant brake = "ABS_BRAKE"
abs_constant hat0_x = "ABS_HAT0X"
abs_constant hat0_y = "ABS_HAT0Y"
abs_constant hat1_x = "ABS_HAT1X"
abs_constant hat1_y = "ABS_HAT1Y"
abs_constant hat2_x = "ABS_HAT2X"
abs_constant hat2_y = "ABS_HAT2Y"
abs_constant hat3_x = "ABS_HAT3X"
abs_constant hat3_y = "ABS_HAT3Y"
abs_constant pressure = "ABS_PRESSURE"
abs_constant distance = "ABS_DISTANCE"
abs_constant tilt_x = "ABS_TILT_X"
abs_constant tilt_y = "ABS_TILT_Y"
abs_constant tool_width = "ABS_TOOL_WIDTH"
abs_constant volume = "ABS_VOLUME"
abs_constant profile = "ABS_PROFILE"
abs_constant misc = "ABS_MISC"
abs_constant mt_slot = "ABS_MT_SLOT"
abs_constant mt_touch_major = "ABS_MT_TOUCH_MAJOR"
abs_constant mt_touch_minor = "ABS_MT_TOUCH_MINOR"
abs_constant mt_width_major = "ABS_MT_WIDTH_MAJOR"
abs_constant mt_width_minor = "ABS_MT_WIDTH_MINOR"
abs_constant mt_orientation = "ABS_MT_ORIENTATION"
abs_constant mt_position_x = "ABS_MT_POSITION_X"
abs_constant mt_position_y = "ABS_MT_POSITION_Y"
abs_constant mt_blob_id = "ABS_MT_BLOB_ID"
abs_constant mt_tracking_id = "ABS_MT_TRACKING_ID"
abs_constant mt_pressure = "ABS_MT_PRESSURE"
abs_constant mt_distance = "ABS_MT_DISTANCE"
abs_constant mt_tool_x = "ABS_MT_TOOL_X"
abs_constant mt_tool_y = "ABS_MT_TOOL_Y"

unfoldable pub abs_arms : List (String × AbsAxis)
abs_arms =
    ("ABS_X", x)
    ∷ ("ABS_Y", y)
    ∷ ("ABS_Z", z)
    ∷ ("ABS_RX", rx)
    ∷ ("ABS_RY", ry)
    ∷ ("ABS_RZ", rz)
    ∷ ("ABS_THROTTLE", throttle)
    ∷ ("ABS_RUDDER", rudder)
    ∷ ("ABS_WHEEL", wheel)
    ∷ ("ABS_GAS", gas)
    ∷ ("ABS_BRAKE", brake)
    ∷ ("ABS_HAT0X", hat0_x)
    ∷ ("ABS_HAT0Y", hat0_y)
    ∷ ("ABS_HAT1X", hat1_x)
    ∷ ("ABS_HAT1Y", hat1_y)
    ∷ ("ABS_HAT2X", hat2_x)
    ∷ ("ABS_HAT2Y", hat2_y)
    ∷ ("ABS_HAT3X", hat3_x)
    ∷ ("ABS_HAT3Y", hat3_y)
    ∷ ("ABS_PRESSURE", pressure)
    ∷ ("ABS_DISTANCE", distance)
    ∷ ("ABS_TILT_X", tilt_x)
    ∷ ("ABS_TILT_Y", tilt_y)
    ∷ ("ABS_TOOL_WIDTH", tool_width)
    ∷ ("ABS_VOLUME", volume)
    ∷ ("ABS_PROFILE", profile)
    ∷ ("ABS_MISC", misc)
    ∷ ("ABS_MT_SLOT", mt_slot)
    ∷ ("ABS_MT_TOUCH_MAJOR", mt_touch_major)
    ∷ ("ABS_MT_TOUCH_MINOR", mt_touch_minor)
    ∷ ("ABS_MT_WIDTH_MAJOR", mt_width_major)
    ∷ ("ABS_MT_WIDTH_MINOR", mt_width_minor)
    ∷ ("ABS_MT_ORIENTATION", mt_orientation)
    ∷ ("ABS_MT_POSITION_X", mt_position_x)
    ∷ ("ABS_MT_POSITION_Y", mt_position_y)
    ∷ ("ABS_MT_BLOB_ID", mt_blob_id)
    ∷ ("ABS_MT_TRACKING_ID", mt_tracking_id)
    ∷ ("ABS_MT_PRESSURE", mt_pressure)
    ∷ ("ABS_MT_DISTANCE", mt_distance)
    ∷ ("ABS_MT_TOOL_X", mt_tool_x)
    ∷ ("ABS_MT_TOOL_Y", mt_tool_y)
    ∷ []

pub data ToolType : Type 0 where
  finger pen palm dial : ToolType

unfoldable pub tool_constant : ToolType → String
tool_constant finger = "MT_TOOL_FINGER"
tool_constant pen = "MT_TOOL_PEN"
tool_constant palm = "MT_TOOL_PALM"
tool_constant dial = "MT_TOOL_DIAL"

unfoldable pub tool_arms : List (String × ToolType)
tool_arms =
    ("MT_TOOL_FINGER", finger)
    ∷ ("MT_TOOL_PEN", pen)
    ∷ ("MT_TOOL_PALM", palm)
    ∷ ("MT_TOOL_DIAL", dial)
    ∷ []

pub data SyncEvent : Type 0 where
  all mt : SyncEvent

unfoldable pub sync_constant : SyncEvent → String
sync_constant all = "SYN_REPORT"
sync_constant mt = "SYN_MT_REPORT"

unfoldable pub sync_arms : List (String × SyncEvent)
sync_arms = ("SYN_REPORT", all) ∷ ("SYN_MT_REPORT", mt) ∷ []
