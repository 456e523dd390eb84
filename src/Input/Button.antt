-- ===== src/Input/Button.antt =====
-- rkvm-master/rkvm-input/src/key/button.rs: buttons, the constant of the kernel's headers that each is
-- written as (`to_raw`), and the arms of `from_raw`.
use nexus_kvm.Base.{String, List, [], ◌∷◌}

pub data Button : Type 0 where
  b0 b1 b2 b3 b4 b5 b6 b7 b8 b9 left right middle side extra forward back task : Button
  trigger thumb thumb2 top top2 pinkie base base2 base3 base4 base5 base6 dead south : Button
  east c north west z tl tr tl2 tr2 select start mode thumb_l thumb_r tool_pen : Button
  tool_rubber tool_brush tool_pencil tool_airbrush tool_finger tool_mouse tool_lens : Button
  quint_tap stylus3 touch stylus stylus2 double_tap triple_tap quad_tap gear_down : Button
  gear_up d_pad_up d_pad_down d_pad_left d_pad_right trigger_happy1 triger_happy2 : Button
  trigger_happy3 trigger_happy4 trigger_happy5 trigger_happy6 trigger_happy7 : Button
  trigger_happy8 trigger_happy9 trigger_happy10 trigger_happy11 trigger_happy12 : Button
  trigger_happy13 trigger_happy14 trigger_happy15 trigger_happy16 trigger_happy17 : Button
  trigger_happy18 trigger_happy19 trigger_happy20 trigger_happy21 trigger_happy22 : Button
  trigger_happy23 trigger_happy24 trigger_happy25 trigger_happy26 trigger_happy27 : Button
  trigger_happy28 trigger_happy29 trigger_happy30 trigger_happy31 trigger_happy32 : Button
  trigger_happy33 trigger_happy34 trigger_happy35 trigger_happy36 trigger_happy37 : Button
  trigger_happy38 trigger_happy39 trigger_happy40 : Button

-- The constant of the arm of `to_raw`.
unfoldable pub button_constant : Button → String
button_constant b0 = "BTN_0"
button_constant b1 = "BTN_1"
button_constant b2 = "BTN_2"
button_constant b3 = "BTN_3"
button_constant b4 = "BTN_4"
button_constant b5 = "BTN_5"
button_constant b6 = "BTN_6"
button_constant b7 = "BTN_7"
button_constant b8 = "BTN_8"
button_constant b9 = "BTN_9"
button_constant left = "BTN_LEFT"
button_constant right = "BTN_RIGHT"
button_constant middle = "BTN_MIDDLE"
button_constant side = "BTN_SIDE"
button_constant extra = "BTN_EXTRA"
button_constant forward = "BTN_FORWARD"
button_constant back = "BTN_BACK"
button_constant task = "BTN_TASK"
button_constant trigger = "BTN_TRIGGER"
button_constant thumb = "BTN_THUMB"
button_constant thumb2 = "BTN_THUMB2"
button_constant top = "BTN_TOP"
button_constant top2 = "BTN_TOP2"
button_constant pinkie = "BTN_PINKIE"
button_constant base = "BTN_BASE"
button_constant base2 = "BTN_BASE2"
button_constant base3 = "BTN_BASE3"
button_constant base4 = "BTN_BASE4"
button_constant base5 = "BTN_BASE5"
button_constant base6 = "BTN_BASE6"
button_constant dead = "BTN_DEAD"
button_constant south = "BTN_SOUTH"
button_constant east = "BTN_EAST"
button_constant c = "BTN_C"
button_constant north = "BTN_NORTH"
button_constant west = "BTN_WEST"
button_constant z = "BTN_Z"
button_constant tl = "BTN_TL"
button_constant tr = "BTN_TR"
button_constant tl2 = "BTN_TL2"
button_constant tr2 = "BTN_TR2"
button_constant select = "BTN_SELECT"
button_constant start = "BTN_START"
button_constant mode = "BTN_MODE"
button_constant thumb_l = "BTN_THUMBL"
button_constant thumb_r = "BTN_THUMBR"
button_constant tool_pen = "BTN_TOOL_PEN"
button_constant tool_rubber = "BTN_TOOL_RUBBER"
button_constant tool_brush = "BTN_TOOL_BRUSH"
button_constant tool_pencil = "BTN_TOOL_PENCIL"
button_constant tool_airbrush = "BTN_TOOL_AIRBRUSH"
button_constant tool_finger = "BTN_TOOL_FINGER"
button_constant tool_mouse = "BTN_TOOL_MOUSE"
button_constant tool_lens = "BTN_TOOL_LENS"
button_constant quint_tap = "BTN_TOOL_QUINTTAP"
button_constant stylus3 = "BTN_STYLUS3"
button_constant touch = "BTN_TOUCH"
button_constant stylus = "BTN_STYLUS"
button_constant stylus2 = "BTN_STYLUS2"
button_constant double_tap = "BTN_TOOL_DOUBLETAP"
button_constant triple_tap = "BTN_TOOL_TRIPLETAP"
button_constant quad_tap = "BTN_TOOL_QUADTAP"
button_constant gear_down = "BTN_GEAR_DOWN"
button_constant gear_up = "BTN_GEAR_UP"
button_constant d_pad_up = "BTN_DPAD_UP"
button_constant d_pad_down = "BTN_DPAD_DOWN"
button_constant d_pad_left = "BTN_DPAD_LEFT"
button_constant d_pad_right = "BTN_DPAD_RIGHT"
button_constant trigger_happy1 = "BTN_TRIGGER_HAPPY1"
button_constant triger_happy2 = "BTN_TRIGGER_HAPPY2"
button_constant trigger_happy3 = "BTN_TRIGGER_HAPPY3"
button_constant trigger_happy4 = "BTN_TRIGGER_HAPPY4"
button_constant trigger_happy5 = "BTN_TRIGGER_HAPPY5"
button_constant trigger_happy6 = "BTN_TRIGGER_HAPPY6"
button_constant trigger_happy7 = "BTN_TRIGGER_HAPPY7"
button_constant trigger_happy8 = "BTN_TRIGGER_HAPPY8"
button_constant trigger_happy9 = "BTN_TRIGGER_HAPPY9"
button_constant trigger_happy10 = "BTN_TRIGGER_HAPPY10"
button_constant trigger_happy11 = "BTN_TRIGGER_HAPPY11"
button_constant trigger_happy12 = "BTN_TRIGGER_HAPPY12"
button_constant trigger_happy13 = "BTN_TRIGGER_HAPPY13"
button_constant trigger_happy14 = "BTN_TRIGGER_HAPPY14"
button_constant trigger_happy15 = "BTN_TRIGGER_HAPPY15"
button_constant trigger_happy16 = "BTN_TRIGGER_HAPPY16"
button_constant trigger_happy17 = "BTN_TRIGGER_HAPPY17"
button_constant trigger_happy18 = "BTN_TRIGGER_HAPPY18"
button_constant trigger_happy19 = "BTN_TRIGGER_HAPPY19"
button_constant trigger_happy20 = "BTN_TRIGGER_HAPPY20"
button_constant trigger_happy21 = "BTN_TRIGGER_HAPPY21"
button_constant trigger_happy22 = "BTN_TRIGGER_HAPPY22"
button_constant trigger_happy23 = "BTN_TRIGGER_HAPPY23"
button_constant trigger_happy24 = "BTN_TRIGGER_HAPPY24"
button_constant trigger_happy25 = "BTN_TRIGGER_HAPPY25"
button_constant trigger_happy26 = "BTN_TRIGGER_HAPPY26"
button_constant trigger_happy27 = "BTN_TRIGGER_HAPPY27"
button_constant trigger_happy28 = "BTN_TRIGGER_HAPPY28"
button_constant trigger_happy29 = "BTN_TRIGGER_HAPPY29"
button_constant trigger_happy30 = "BTN_TRIGGER_HAPPY30"
button_constant trigger_happy31 = "BTN_TRIGGER_HAPPY31"
button_constant trigger_happy32 = "BTN_TRIGGER_HAPPY32"
button_constant trigger_happy33 = "BTN_TRIGGER_HAPPY33"
button_constant trigger_happy34 = "BTN_TRIGGER_HAPPY34"
button_constant trigger_happy35 = "BTN_TRIGGER_HAPPY35"
button_constant trigger_happy36 = "BTN_TRIGGER_HAPPY36"
button_constant trigger_happy37 = "BTN_TRIGGER_HAPPY37"
button_constant trigger_happy38 = "BTN_TRIGGER_HAPPY38"
button_constant trigger_happy39 = "BTN_TRIGGER_HAPPY39"
button_constant trigger_happy40 = "BTN_TRIGGER_HAPPY40"

-- The arms of `from_raw`, in their order.
unfoldable pub button_arms : List (String × Button)
button_arms =
    ("BTN_0", b0)
    ∷ ("BTN_1", b1)
    ∷ ("BTN_2", b2)
    ∷ ("BTN_3", b3)
    ∷ ("BTN_4", b4)
    ∷ ("BTN_5", b5)
    ∷ ("BTN_6", b6)
    ∷ ("BTN_7", b7)
    ∷ ("BTN_8", b8)
    ∷ ("BTN_9", b9)
    ∷ ("BTN_LEFT", left)
    ∷ ("BTN_RIGHT", right)
    ∷ ("BTN_MIDDLE", middle)
    ∷ ("BTN_SIDE", side)
    ∷ ("BTN_EXTRA", extra)
    ∷ ("BTN_FORWARD", forward)
    ∷ ("BTN_BACK", back)
    ∷ ("BTN_TASK", task)
    ∷ ("BTN_TRIGGER", trigger)
    ∷ ("BTN_THUMB", thumb)
    ∷ ("BTN_THUMB2", thumb2)
    ∷ ("BTN_TOP", top)
    ∷ ("BTN_TOP2", top2)
    ∷ ("BTN_PINKIE", pinkie)
    ∷ ("BTN_BASE", base)
    ∷ ("BTN_BASE2", base2)
    ∷ ("BTN_BASE3", base3)
    ∷ ("BTN_BASE4", base4)
    ∷ ("BTN_BASE5", base5)
    ∷ ("BTN_BASE6", base6)
    ∷ ("BTN_DEAD", dead)
    ∷ ("BTN_SOUTH", south)
    ∷ ("BTN_EAST", east)
    ∷ ("BTN_C", c)
    ∷ ("BTN_NORTH", north)
    ∷ ("BTN_WEST", west)
    ∷ ("BTN_Z", z)
    ∷ ("BTN_TL", tl)
    ∷ ("BTN_TR", tr)
    ∷ ("BTN_TL2", tl2)
    ∷ ("BTN_TR2", tr2)
    ∷ ("BTN_SELECT", select)
    ∷ ("BTN_START", start)
    ∷ ("BTN_MODE", mode)
    ∷ ("BTN_THUMBL", thumb_l)
    ∷ ("BTN_THUMBR", thumb_r)
    ∷ ("BTN_TOOL_PEN", tool_pen)
    ∷ ("BTN_TOOL_RUBBER", tool_rubber)
    ∷ ("BTN_TOOL_BRUSH", tool_brush)
    ∷ ("BTN_TOOL_PENCIL", tool_pencil)
    ∷ ("BTN_TOOL_AIRBRUSH", tool_airbrush)
    ∷ ("BTN_TOOL_FINGER", tool_finger)
    ∷ ("BTN_TOOL_MOUSE", tool_mouse)
    ∷ ("BTN_TOOL_LENS", tool_lens)
    ∷ ("BTN_TOOL_QUINTTAP", quint_tap)
    ∷ ("BTN_STYLUS3", stylus3)
    ∷ ("BTN_TOUCH", touch)
    ∷ ("BTN_STYLUS", stylus)
    ∷ ("BTN_STYLUS2", stylus2)
    ∷ ("BTN_TOOL_DOUBLETAP", double_tap)
    ∷ ("BTN_TOOL_TRIPLETAP", triple_tap)
    ∷ ("BTN_TOOL_QUADTAP", quad_tap)
    ∷ ("BTN_GEAR_DOWN", gear_down)
    ∷ ("BTN_GEAR_UP", gear_up)
    ∷ ("BTN_DPAD_UP", d_pad_up)
    ∷ ("BTN_DPAD_DOWN", d_pad_down)
    ∷ ("BTN_DPAD_LEFT", d_pad_left)
    ∷ ("BTN_DPAD_RIGHT", d_pad_right)
    ∷ ("BTN_TRIGGER_HAPPY1", trigger_happy1)
    ∷ ("BTN_TRIGGER_HAPPY2", triger_happy2)
    ∷ ("BTN_TRIGGER_HAPPY3", trigger_happy3)
    ∷ ("BTN_TRIGGER_HAPPY4", trigger_happy4)
    ∷ ("BTN_TRIGGER_HAPPY5", trigger_happy5)
    ∷ ("BTN_TRIGGER_HAPPY6", trigger_happy6)
    ∷ ("BTN_TRIGGER_HAPPY7", trigger_happy7)
    ∷ ("BTN_TRIGGER_HAPPY8", trigger_happy8)
    ∷ ("BTN_TRIGGER_HAPPY9", trigger_happy9)
    ∷ ("BTN_TRIGGER_HAPPY10", trigger_happy10)
    ∷ ("BTN_TRIGGER_HAPPY11", trigger_happy11)
    ∷ ("BTN_TRIGGER_HAPPY12", trigger_happy12)
    ∷ ("BTN_TRIGGER_HAPPY13", trigger_happy13)
    ∷ ("BTN_TRIGGER_HAPPY14", trigger_happy14)
    ∷ ("BTN_TRIGGER_HAPPY15", trigger_happy15)
    ∷ ("BTN_TRIGGER_HAPPY16", trigger_happy16)
    ∷ ("BTN_TRIGGER_HAPPY17", trigger_happy17)
    ∷ ("BTN_TRIGGER_HAPPY18", trigger_happy18)
    ∷ ("BTN_TRIGGER_HAPPY19", trigger_happy19)
    ∷ ("BTN_TRIGGER_HAPPY20", trigger_happy20)
    ∷ ("BTN_TRIGGER_HAPPY21", trigger_happy21)
    ∷ ("BTN_TRIGGER_HAPPY22", trigger_happy22)
    ∷ ("BTN_TRIGGER_HAPPY23", trigger_happy23)
    ∷ ("BTN_TRIGGER_HAPPY24", trigger_happy24)
    ∷ ("BTN_TRIGGER_HAPPY25", trigger_happy25)
    ∷ ("BTN_TRIGGER_HAPPY26", trigger_happy26)
    ∷ ("BTN_TRIGGER_HAPPY27", trigger_happy27)
    ∷ ("BTN_TRIGGER_HAPPY28", trigger_happy28)
    ∷ ("BTN_TRIGGER_HAPPY29", trigger_happy29)
    ∷ ("BTN_TRIGGER_HAPPY30", trigger_happy30)
    ∷ ("BTN_TRIGGER_HAPPY31", trigger_happy31)
    ∷ ("BTN_TRIGGER_HAPPY32", trigger_happy32)
    ∷ ("BTN_TRIGGER_HAPPY33", trigger_happy33)
    ∷ ("BTN_TRIGGER_HAPPY34", trigger_happy34)
    ∷ ("BTN_TRIGGER_HAPPY35", trigger_happy35)
    ∷ ("BTN_TRIGGER_HAPPY36", trigger_happy36)
    ∷ ("BTN_TRIGGER_HAPPY37", trigger_happy37)
    ∷ ("BTN_TRIGGER_HAPPY38", trigger_happy38)
    ∷ ("BTN_TRIGGER_HAPPY39", trigger_happy39)
    ∷ ("BTN_TRIGGER_HAPPY40", trigger_happy40)
    ∷ []
