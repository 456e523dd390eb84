-- ===== src/Input/Keyboard.antt =====
-- rkvm-master/rkvm-input/src/key/keyboard.rs: the keys of a keyboard, the constant of the kernel's
-- headers that each is written as (`to_raw`), and the arms of `from_raw`.
pub mod Arms
use nexus_kvm.Base.{String}

pub data Keyboard : Type 0 where
  a ab address_book again als_toggle alt_erase angle apostrophe appselect archive : Keyboard
  aspect_ratio assistant attendant_off attendant_on attendant_toggle audio : Keyboard
  audio_desc aux b back backslash backspace bass_boost battery blue bluetooth : Keyboard
  bookmarks break brightness_auto brightness_cycle brightness_max brightness_min : Keyboard
  brightness_toggle brightness_down brightness_up brl_dot1 brl_dot10 brl_dot2 : Keyboard
  brl_dot3 brl_dot4 brl_dot5 brl_dot6 brl_dot7 brl_dot8 brl_dot9 button_config c : Keyboard
  calc calendar camera camera_down camera_focus camera_left camera_right camera_up : Keyboard
  camera_zoom_in camera_zoom_out cancel caps_lock cd channel channel_down channel_up : Keyboard
  chat clear close close_cd coffee comma compose computer config connect : Keyboard
  context_menu controlpanel copy cut cycle_windows d dashboard data_key database : Keyboard
  del_eol del_eos del_line delete delete_file digits directory display_off : Keyboard
  display_toggle documents dollar dot down dvd e edit editor eject_cd eject_close_cd : Keyboard
  email end enter epg equal esc euro exit f f1 f10 f11 f12 f13 f14 f15 f16 f17 f18 : Keyboard
  f19 f2 f20 f21 f22 f23 f24 f3 f4 f5 f6 f7 f8 f9 fast_forward fast_reverse : Keyboard
  favorites file finance find first fn fn1 fn2 fn_b fn_d fn_e fn_esc fn_f fn_f1 : Keyboard
  fn_f10 fn_f11 fn_f12 fn_f2 fn_f3 fn_f4 fn_f5 fn_f6 fn_f7 fn_f8 fn_f9 fn_s forward : Keyboard
  forward_mail frameback frame_forward front full_screen g games goto : Keyboard
  graphics_editor grave green h hangeul hanja help henkan hiragana home homepage hp : Keyboard
  i images info ins_line insert iso j journal k katakana katakana_hiragana : Keyboard
  kbd_layout_next kbd_lcd_menu1 kbd_lcd_menu2 kbd_lcd_menu3 kbd_lcd_menu4 : Keyboard
  kbd_lcd_menu5 kbd_illum_down kbd_illum_toggle kbd_illum_up kbd_input_assist_accept : Keyboard
  kbd_input_assist_cancel kbd_input_assist_next kbd_input_assist_nextgroup : Keyboard
  kbd_input_assist_prev kbd_input_assist_prevgroup keyboard kp0 kp1 kp2 kp3 kp4 kp5 : Keyboard
  kp6 kp7 kp8 kp9 kp_asterisk kp_comma kp_dot kp_enter kp_equal kp_jp_comma : Keyboard
  kp_left_paren kp_minus kp_plus kp_plus_minus kp_right_paren kp_slash l language : Keyboard
  last left left_down left_up left_alt left_brace left_ctrl left_meta left_shift : Keyboard
  lights_toggle line_feed list log_off m macro macro1 macro10 macro11 macro12 : Keyboard
  macro13 macro14 macro15 macro16 macro17 macro18 macro19 macro2 macro20 macro21 : Keyboard
  macro22 macro23 macro24 macro25 macro26 macro27 macro28 macro29 macro3 macro30 : Keyboard
  macro4 macro5 macro6 macro7 macro8 macro9 macro_preset1 macro_preset2 : Keyboard
  macro_preset3 macro_preset_cycle macro_record_start macro_record_stop mail media : Keyboard
  media_repeat media_top_menu memo menu messenger mhp mic_mute minus mode move mp3 : Keyboard
  ms_dos muhenkan mute n n0 n1 n102nd n10_channels_down n10_channels_up n2 n3 : Keyboard
  n3d_mode n4 n5 n6 n7 n8 n9 new news next next_favorite next_song numeric0 numeric1 : Keyboard
  numeric11 numeric12 numeric2 numeric3 numeric4 numeric5 numeric6 numeric7 numeric8 : Keyboard
  numeric9 numeric_a numeric_b numeric_c numeric_d numeric_pound numeric_star : Keyboard
  num_lock o ok onscreen_keyboard open_key option p page_down page_up paste pause : Keyboard
  pause_record pause_cd pc phone play play_cd player play_pause power power2 : Keyboard
  presentation previous previous_song print privacy_screen_toggle prog1 prog2 prog3 : Keyboard
  prog4 program props pvr q question r radio record_key red redo refresh reply : Keyboard
  reserved restart rewind rf_kill right right_down right_up right_alt right_brace : Keyboard
  right_ctrl right_meta right_shift ro root_menu rotate_display rotate_lock_toggle s : Keyboard
  sat sat2 save scale screensaver scroll_down scroll_lock scroll_up search_key : Keyboard
  select selective_screenshot semicolon send send_file setup shop shuffle slash : Keyboard
  sleep slow slow_reverse sound space spellcheck sport spreadsheet stop stop_record : Keyboard
  stop_cd subtitle suspend switch_video_mode sys_rq t tab tape task_manager teen : Keyboard
  text time title touchpad_off touchpad_on touchpad_toggle tuner tv tv2 twen u undo : Keyboard
  unknown unmute up uwb v vcr vcr2 vendor video video_next video_prev video_phone : Keyboard
  vod voice_command voice_mail volume_down volume_up w wake_up wlan word_processor : Keyboard
  wps_button wwan www x xfer y yellow yen z zenkaku_hankaku zoom_in zoom_out : Keyboard
  zoom_reset : Keyboard

-- The constant of the arm of `to_raw`.
unfoldable pub keyboard_constant : Keyboard → String
keyboard_constant a = "KEY_A"
keyboard_constant ab = "KEY_AB"
keyboard_constant address_book = "KEY_ADDRESSBOOK"
keyboard_constant again = "KEY_AGAIN"
keyboard_constant als_toggle = "KEY_ALS_TOGGLE"
keyboard_constant alt_erase = "KEY_ALTERASE"
keyboard_constant angle = "KEY_ANGLE"
keyboard_constant apostrophe = "KEY_APOSTROPHE"
keyboard_constant appselect = "KEY_APPSELECT"
keyboard_constant archive = "KEY_ARCHIVE"
keyboard_constant aspect_ratio = "KEY_ASPECT_RATIO"
keyboard_constant assistant = "KEY_ASSISTANT"
keyboard_constant attendant_off = "KEY_ATTENDANT_OFF"
keyboard_constant attendant_on = "KEY_ATTENDANT_ON"
keyboard_constant attendant_toggle = "KEY_ATTENDANT_TOGGLE"
keyboard_constant audio = "KEY_AUDIO"
keyboard_constant audio_desc = "KEY_AUDIO_DESC"
keyboard_constant aux = "KEY_AUX"
keyboard_constant b = "KEY_B"
keyboard_constant back = "KEY_BACK"
keyboard_constant backslash = "KEY_BACKSLASH"
keyboard_constant backspace = "KEY_BACKSPACE"
keyboard_constant bass_boost = "KEY_BASSBOOST"
keyboard_constant battery = "KEY_BATTERY"
keyboard_constant blue = "KEY_BLUE"
keyboard_constant bluetooth = "KEY_BLUETOOTH"
keyboard_constant bookmarks = "KEY_BOOKMARKS"
keyboard_constant break = "KEY_BREAK"
keyboard_constant brightness_auto = "KEY_BRIGHTNESS_AUTO"
keyboard_constant brightness_cycle = "KEY_BRIGHTNESS_CYCLE"
keyboard_constant brightness_max = "KEY_BRIGHTNESS_MAX"
keyboard_constant brightness_min = "KEY_BRIGHTNESS_MIN"
keyboard_constant brightness_toggle = "KEY_BRIGHTNESS_TOGGLE"
keyboard_constant brightness_down = "KEY_BRIGHTNESSDOWN"
keyboard_constant brightness_up = "KEY_BRIGHTNESSUP"
keyboard_constant brl_dot1 = "KEY_BRL_DOT1"
keyboard_constant brl_dot10 = "KEY_BRL_DOT10"
keyboard_constant brl_dot2 = "KEY_BRL_DOT2"
keyboard_constant brl_dot3 = "KEY_BRL_DOT3"
keyboard_constant brl_dot4 = "KEY_BRL_DOT4"
keyboard_constant brl_dot5 = "KEY_BRL_DOT5"
keyboard_constant brl_dot6 = "KEY_BRL_DOT6"
keyboard_constant brl_dot7 = "KEY_BRL_DOT7"
keyboard_constant brl_dot8 = "KEY_BRL_DOT8"
keyboard_constant brl_dot9 = "KEY_BRL_DOT9"
keyboard_constant button_config = "KEY_BUTTONCONFIG"
keyboard_constant c = "KEY_C"
keyboard_constant calc = "KEY_CALC"
keyboard_constant calendar = "KEY_CALENDAR"
keyboard_constant camera = "KEY_CAMERA"
keyboard_constant camera_down = "KEY_CAMERA_DOWN"
keyboard_constant camera_focus = "KEY_CAMERA_FOCUS"
keyboard_constant camera_left = "KEY_CAMERA_LEFT"
keyboard_constant camera_right = "KEY_CAMERA_RIGHT"
keyboard_constant camera_up = "KEY_CAMERA_UP"
keyboard_constant camera_zoom_in = "KEY_CAMERA_ZOOMIN"
keyboard_constant camera_zoom_out = "KEY_CAMERA_ZOOMOUT"
keyboard_constant cancel = "KEY_CANCEL"
keyboard_constant caps_lock = "KEY_CAPSLOCK"
keyboard_constant cd = "KEY_CD"
keyboard_constant channel = "KEY_CHANNEL"
keyboard_constant channel_down = "KEY_CHANNELDOWN"
keyboard_constant channel_up = "KEY_CHANNELUP"
keyboard_constant chat = "KEY_CHAT"
keyboard_constant clear = "KEY_CLEAR"
keyboard_constant close = "KEY_CLOSE"
keyboard_constant close_cd = "KEY_CLOSECD"
keyboard_constant coffee = "KEY_COFFEE"
keyboard_constant comma = "KEY_COMMA"
keyboard_constant compose = "KEY_COMPOSE"
keyboard_constant computer = "KEY_COMPUTER"
keyboard_constant config = "KEY_CONFIG"
keyboard_constant connect = "KEY_CONNECT"
keyboard_constant context_menu = "KEY_CONTEXT_MENU"
keyboard_constant controlpanel = "KEY_CONTROLPANEL"
keyboard_constant copy = "KEY_COPY"
keyboard_constant cut = "KEY_CUT"
keyboard_constant cycle_windows = "KEY_CYCLEWINDOWS"
keyboard_constant d = "KEY_D"
keyboard_constant dashboard = "KEY_DASHBOARD"
keyboard_constant data_key = "KEY_DATA"
keyboard_constant database = "KEY_DATABASE"
keyboard_constant del_eol = "KEY_DEL_EOL"
keyboard_constant del_eos = "KEY_DEL_EOS"
keyboard_constant del_line = "KEY_DEL_LINE"
keyboard_constant delete = "KEY_DELETE"
keyboard_constant delete_file = "KEY_DELETEFILE"
keyboard_constant digits = "KEY_DIGITS"
keyboard_constant directory = "KEY_DIRECTORY"
keyboard_constant display_off = "KEY_DISPLAY_OFF"
keyboard_constant display_toggle = "KEY_DISPLAYTOGGLE"
keyboard_constant documents = "KEY_DOCUMENTS"
keyboard_constant dollar = "KEY_DOLLAR"
keyboard_constant dot = "KEY_DOT"
keyboard_constant down = "KEY_DOWN"
keyboard_constant dvd = "KEY_DVD"
keyboard_constant e = "KEY_E"
keyboard_constant edit = "KEY_EDIT"
keyboard_constant editor = "KEY_EDITOR"
keyboard_constant eject_cd = "KEY_EJECTCD"
keyboard_constant eject_close_cd = "KEY_EJECTCLOSECD"
keyboard_constant email = "KEY_EMAIL"
keyboard_constant end = "KEY_END"
keyboard_constant enter = "KEY_ENTER"
keyboard_constant epg = "KEY_EPG"
keyboard_constant equal = "KEY_EQUAL"
keyboard_constant esc = "KEY_ESC"
keyboard_constant euro = "KEY_EURO"
keyboard_constant exit = "KEY_EXIT"
keyboard_constant f = "KEY_F"
keyboard_constant f1 = "KEY_F1"
keyboard_constant f10 = "KEY_F10"
keyboard_constant f11 = "KEY_F11"
keyboard_constant f12 = "KEY_F12"
keyboard_constant f13 = "KEY_F13"
keyboard_constant f14 = "KEY_F14"
keyboard_constant f15 = "KEY_F15"
keyboard_constant f16 = "KEY_F16"
keyboard_constant f17 = "KEY_F17"
keyboard_constant f18 = "KEY_F18"
keyboard_constant f19 = "KEY_F19"
keyboard_constant f2 = "KEY_F2"
keyboard_constant f20 = "KEY_F20"
keyboard_constant f21 = "KEY_F21"
keyboard_constant f22 = "KEY_F22"
keyboard_constant f23 = "KEY_F23"
keyboard_constant f24 = "KEY_F24"
keyboard_constant f3 = "KEY_F3"
keyboard_constant f4 = "KEY_F4"
keyboard_constant f5 = "KEY_F5"
keyboard_constant f6 = "KEY_F6"
keyboard_constant f7 = "KEY_F7"
keyboard_constant f8 = "KEY_F8"
keyboard_constant f9 = "KEY_F9"
keyboard_constant fast_forward = "KEY_FASTFORWARD"
keyboard_constant fast_reverse = "KEY_FASTREVERSE"
keyboard_constant favorites = "KEY_FAVORITES"
keyboard_constant file = "KEY_FILE"
keyboard_constant finance = "KEY_FINANCE"
keyboard_constant find = "KEY_FIND"
keyboard_constant first = "KEY_FIRST"
keyboard_constant fn = "KEY_FN"
keyboard_constant fn1 = "KEY_FN_1"
keyboard_constant fn2 = "KEY_FN_2"
keyboard_constant fn_b = "KEY_FN_B"
keyboard_constant fn_d = "KEY_FN_D"
keyboard_constant fn_e = "KEY_FN_E"
keyboard_constant fn_esc = "KEY_FN_ESC"
keyboard_constant fn_f = "KEY_FN_F"
keyboard_constant fn_f1 = "KEY_FN_F1"
keyboard_constant fn_f10 = "KEY_FN_F10"
keyboard_constant fn_f11 = "KEY_FN_F11"
keyboard_constant fn_f12 = "KEY_FN_F12"
keyboard_constant fn_f2 = "KEY_FN_F2"
keyboard_constant fn_f3 = "KEY_FN_F3"
keyboard_constant fn_f4 = "KEY_FN_F4"
keyboard_constant fn_f5 = "KEY_FN_F5"
keyboard_constant fn_f6 = "KEY_FN_F6"
keyboard_constant fn_f7 = "KEY_FN_F7"
keyboard_constant fn_f8 = "KEY_FN_F8"
keyboard_constant fn_f9 = "KEY_FN_F9"
keyboard_constant fn_s = "KEY_FN_S"
keyboard_constant forward = "KEY_FORWARD"
keyboard_constant forward_mail = "KEY_FORWARDMAIL"
keyboard_constant frameback = "KEY_FRAMEBACK"
keyboard_constant frame_forward = "KEY_FRAMEFORWARD"
keyboard_constant front = "KEY_FRONT"
keyboard_constant full_screen = "KEY_FULL_SCREEN"
keyboard_constant g = "KEY_G"
keyboard_constant games = "KEY_GAMES"
keyboard_constant goto = "KEY_GOTO"
keyboard_constant graphics_editor = "KEY_GRAPHICSEDITOR"
keyboard_constant grave = "KEY_GRAVE"
keyboard_constant green = "KEY_GREEN"
keyboard_constant h = "KEY_H"
keyboard_constant hangeul = "KEY_HANGEUL"
keyboard_constant hanja = "KEY_HANJA"
keyboard_constant help = "KEY_HELP"
keyboard_constant henkan = "KEY_HENKAN"
keyboard_constant hiragana = "KEY_HIRAGANA"
keyboard_constant home = "KEY_HOME"
keyboard_constant homepage = "KEY_HOMEPAGE"
keyboard_constant hp = "KEY_HP"
keyboard_constant i = "KEY_I"
keyboard_constant images = "KEY_IMAGES"
keyboard_constant info = "KEY_INFO"
keyboard_constant ins_line = "KEY_INS_LINE"
keyboard_constant insert = "KEY_INSERT"
keyboard_constant iso = "KEY_ISO"
keyboard_constant j = "KEY_J"
keyboard_constant journal = "KEY_JOURNAL"
keyboard_constant k = "KEY_K"
keyboard_constant katakana = "KEY_KATAKANA"
keyboard_constant katakana_hiragana = "KEY_KATAKANAHIRAGANA"
keyboard_constant kbd_layout_next = "KEY_KBD_LAYOUT_NEXT"
keyboard_constant kbd_lcd_menu1 = "KEY_KBD_LCD_MENU1"
keyboard_constant kbd_lcd_menu2 = "KEY_KBD_LCD_MENU2"
keyboard_constant kbd_lcd_menu3 = "KEY_KBD_LCD_MENU3"
keyboard_constant kbd_lcd_menu4 = "KEY_KBD_LCD_MENU4"
keyboard_constant kbd_lcd_menu5 = "KEY_KBD_LCD_MENU5"
keyboard_constant kbd_illum_down = "KEY_KBDILLUMDOWN"
keyboard_constant kbd_illum_toggle = "KEY_KBDILLUMTOGGLE"
keyboard_constant kbd_illum_up = "KEY_KBDILLUMUP"
keyboard_constant kbd_input_assist_accept = "KEY_KBDINPUTASSIST_ACCEPT"
keyboard_constant kbd_input_assist_cancel = "KEY_KBDINPUTASSIST_CANCEL"
keyboard_constant kbd_input_assist_next = "KEY_KBDINPUTASSIST_NEXT"
keyboard_constant kbd_input_assist_nextgroup = "KEY_KBDINPUTASSIST_NEXTGROUP"
keyboard_constant kbd_input_assist_prev = "KEY_KBDINPUTASSIST_PREV"
keyboard_constant kbd_input_assist_prevgroup = "KEY_KBDINPUTASSIST_PREVGROUP"
keyboard_constant keyboard = "KEY_KEYBOARD"
keyboard_constant kp0 = "KEY_KP0"
keyboard_constant kp1 = "KEY_KP1"
keyboard_constant kp2 = "KEY_KP2"
keyboard_constant kp3 = "KEY_KP3"
keyboard_constant kp4 = "KEY_KP4"
keyboard_constant kp5 = "KEY_KP5"
keyboard_constant kp6 = "KEY_KP6"
keyboard_constant kp7 = "KEY_KP7"
keyboard_constant kp8 = "KEY_KP8"
keyboard_constant kp9 = "KEY_KP9"
keyboard_constant kp_asterisk = "KEY_KPASTERISK"
keyboard_constant kp_comma = "KEY_KPCOMMA"
keyboard_constant kp_dot = "KEY_KPDOT"
keyboard_constant kp_enter = "KEY_KPENTER"
keyboard_constant kp_equal = "KEY_KPEQUAL"
keyboard_constant kp_jp_comma = "KEY_KPJPCOMMA"
keyboard_constant kp_left_paren = "KEY_KPLEFTPAREN"
keyboard_constant kp_minus = "KEY_KPMINUS"
keyboard_constant kp_plus = "KEY_KPPLUS"
keyboard_constant kp_plus_minus = "KEY_KPPLUSMINUS"
keyboard_constant kp_right_paren = "KEY_KPRIGHTPAREN"
keyboard_constant kp_slash = "KEY_KPSLASH"
keyboard_constant l = "KEY_L"
keyboard_constant language = "KEY_LANGUAGE"
keyboard_constant last = "KEY_LAST"
keyboard_constant left = "KEY_LEFT"
keyboard_constant left_down = "KEY_LEFT_DOWN"
keyboard_constant left_up = "KEY_LEFT_UP"
keyboard_constant left_alt = "KEY_LEFTALT"
keyboard_constant left_brace = "KEY_LEFTBRACE"
keyboard_constant left_ctrl = "KEY_LEFTCTRL"
keyboard_constant left_meta = "KEY_LEFTMETA"
keyboard_constant left_shift = "KEY_LEFTSHIFT"
keyboard_constant lights_toggle = "KEY_LIGHTS_TOGGLE"
keyboard_constant line_feed = "KEY_LINEFEED"
keyboard_constant list = "KEY_LIST"
keyboard_constant log_off = "KEY_LOGOFF"
keyboard_constant m = "KEY_M"
keyboard_constant macro = "KEY_MACRO"
keyboard_constant macro1 = "KEY_MACRO1"
keyboard_constant macro10 = "KEY_MACRO10"
keyboard_constant macro11 = "KEY_MACRO11"
keyboard_constant macro12 = "KEY_MACRO12"
keyboard_constant macro13 = "KEY_MACRO13"
keyboard_constant macro14 = "KEY_MACRO14"
keyboard_constant macro15 = "KEY_MACRO15"
keyboard_constant macro16 = "KEY_MACRO16"
keyboard_constant macro17 = "KEY_MACRO17"
keyboard_constant macro18 = "KEY_MACRO18"
keyboard_constant macro19 = "KEY_MACRO19"
keyboard_constant macro2 = "KEY_MACRO2"
keyboard_constant macro20 = "KEY_MACRO20"
keyboard_constant macro21 = "KEY_MACRO21"
keyboard_constant macro22 = "KEY_MACRO22"
keyboard_constant macro23 = "KEY_MACRO23"
keyboard_constant macro24 = "KEY_MACRO24"
keyboard_constant macro25 = "KEY_MACRO25"
keyboard_constant macro26 = "KEY_MACRO26"
keyboard_constant macro27 = "KEY_MACRO27"
keyboard_constant macro28 = "KEY_MACRO28"
keyboard_constant macro29 = "KEY_MACRO29"
keyboard_constant macro3 = "KEY_MACRO3"
keyboard_constant macro30 = "KEY_MACRO30"
keyboard_constant macro4 = "KEY_MACRO4"
keyboard_constant macro5 = "KEY_MACRO5"
keyboard_constant macro6 = "KEY_MACRO6"
keyboard_constant macro7 = "KEY_MACRO7"
keyboard_constant macro8 = "KEY_MACRO8"
keyboard_constant macro9 = "KEY_MACRO9"
keyboard_constant macro_preset1 = "KEY_MACRO_PRESET1"
keyboard_constant macro_preset2 = "KEY_MACRO_PRESET2"
keyboard_constant macro_preset3 = "KEY_MACRO_PRESET3"
keyboard_constant macro_preset_cycle = "KEY_MACRO_PRESET_CYCLE"
keyboard_constant macro_record_start = "KEY_MACRO_RECORD_START"
keyboard_constant macro_record_stop = "KEY_MACRO_RECORD_STOP"
keyboard_constant mail = "KEY_MAIL"
keyboard_constant media = "KEY_MEDIA"
keyboard_constant media_repeat = "KEY_MEDIA_REPEAT"
keyboard_constant media_top_menu = "KEY_MEDIA_TOP_MENU"
keyboard_constant memo = "KEY_MEMO"
keyboard_constant menu = "KEY_MENU"
keyboard_constant messenger = "KEY_MESSENGER"
keyboard_constant mhp = "KEY_MHP"
keyboard_constant mic_mute = "KEY_MICMUTE"
keyboard_constant minus = "KEY_MINUS"
keyboard_constant mode = "KEY_MODE"
keyboard_constant move = "KEY_MOVE"
keyboard_constant mp3 = "KEY_MP3"
keyboard_constant ms_dos = "KEY_MSDOS"
keyboard_constant muhenkan = "KEY_MUHENKAN"
keyboard_constant mute = "KEY_MUTE"
keyboard_constant n = "KEY_N"
keyboard_constant n0 = "KEY_0"
keyboard_constant n1 = "KEY_1"
keyboard_constant n102nd = "KEY_102ND"
keyboard_constant n10_channels_down = "KEY_10CHANNELSDOWN"
keyboard_constant n10_channels_up = "KEY_10CHANNELSUP"
keyboard_constant n2 = "KEY_2"
keyboard_constant n3 = "KEY_3"
keyboard_constant n3d_mode = "KEY_3D_MODE"
keyboard_constant n4 = "KEY_4"
keyboard_constant n5 = "KEY_5"
keyboard_constant n6 = "KEY_6"
keyboard_constant n7 = "KEY_7"
keyboard_constant n8 = "KEY_8"
keyboard_constant n9 = "KEY_9"
keyboard_constant new = "KEY_NEW"
keyboard_constant news = "KEY_NEWS"
keyboard_constant next = "KEY_NEXT"
keyboard_constant next_favorite = "KEY_NEXT_FAVORITE"
keyboard_constant next_song = "KEY_NEXTSONG"
keyboard_constant numeric0 = "KEY_NUMERIC_0"
keyboard_constant numeric1 = "KEY_NUMERIC_1"
keyboard_constant numeric11 = "KEY_NUMERIC_11"
keyboard_constant numeric12 = "KEY_NUMERIC_12"
keyboard_constant numeric2 = "KEY_NUMERIC_2"
keyboard_constant numeric3 = "KEY_NUMERIC_3"
keyboard_constant numeric4 = "KEY_NUMERIC_4"
keyboard_constant numeric5 = "KEY_NUMERIC_5"
keyboard_constant numeric6 = "KEY_NUMERIC_6"
keyboard_constant numeric7 = "KEY_NUMERIC_7"
keyboard_constant numeric8 = "KEY_NUMERIC_8"
keyboard_constant numeric9 = "KEY_NUMERIC_9"
keyboard_constant numeric_a = "KEY_NUMERIC_A"
keyboard_constant numeric_b = "KEY_NUMERIC_B"
keyboard_constant numeric_c = "KEY_NUMERIC_C"
keyboard_constant numeric_d = "KEY_NUMERIC_D"
keyboard_constant numeric_pound = "KEY_NUMERIC_POUND"
keyboard_constant numeric_star = "KEY_NUMERIC_STAR"
keyboard_constant num_lock = "KEY_NUMLOCK"
keyboard_constant o = "KEY_O"
keyboard_constant ok = "KEY_OK"
keyboard_constant onscreen_keyboard = "KEY_ONSCREEN_KEYBOARD"
keyboard_constant open_key = "KEY_OPEN"
keyboard_constant option = "KEY_OPTION"
keyboard_constant p = "KEY_P"
keyboard_constant page_down = "KEY_PAGEDOWN"
keyboard_constant page_up = "KEY_PAGEUP"
keyboard_constant paste = "KEY_PASTE"
keyboard_constant pause = "KEY_PAUSE"
keyboard_constant pause_record = "KEY_PAUSE_RECORD"
keyboard_constant pause_cd = "KEY_PAUSECD"
keyboard_constant pc = "KEY_PC"
keyboard_constant phone = "KEY_PHONE"
keyboard_constant play = "KEY_PLAY"
keyboard_constant play_cd = "KEY_PLAYCD"
keyboard_constant player = "KEY_PLAYER"
keyboard_constant play_pause = "KEY_PLAYPAUSE"
keyboard_constant power = "KEY_POWER"
keyboard_constant power2 = "KEY_POWER2"
keyboard_constant presentation = "KEY_PRESENTATION"
keyboard_constant previous = "KEY_PREVIOUS"
keyboard_constant previous_song = "KEY_PREVIOUSSONG"
keyboard_constant print = "KEY_PRINT"
keyboard_constant privacy_screen_toggle = "KEY_PRIVACY_SCREEN_TOGGLE"
keyboard_constant prog1 = "KEY_PROG1"
keyboard_constant prog2 = "KEY_PROG2"
keyboard_constant prog3 = "KEY_PROG3"
keyboard_constant prog4 = "KEY_PROG4"
keyboard_constant program = "KEY_PROGRAM"
keyboard_constant props = "KEY_PROPS"
keyboard_constant pvr = "KEY_PVR"
keyboard_constant q = "KEY_Q"
keyboard_constant question = "KEY_QUESTION"
keyboard_constant r = "KEY_R"
keyboard_constant radio = "KEY_RADIO"
keyboard_constant record_key = "KEY_RECORD"
keyboard_constant red = "KEY_RED"
keyboard_constant redo = "KEY_REDO"
keyboard_constant refresh = "KEY_REFRESH"
keyboard_constant reply = "KEY_REPLY"
keyboard_constant reserved = "KEY_RESERVED"
keyboard_constant restart = "KEY_RESTART"
keyboard_constant rewind = "KEY_REWIND"
keyboard_constant rf_kill = "KEY_RFKILL"
keyboard_constant right = "KEY_RIGHT"
keyboard_constant right_down = "KEY_RIGHT_DOWN"
keyboard_constant right_up = "KEY_RIGHT_UP"
keyboard_constant right_alt = "KEY_RIGHTALT"
keyboard_constant right_brace = "KEY_RIGHTBRACE"
keyboard_constant right_ctrl = "KEY_RIGHTCTRL"
keyboard_constant right_meta = "KEY_RIGHTMETA"
keyboard_constant right_shift = "KEY_RIGHTSHIFT"
keyboard_constant ro = "KEY_RO"
keyboard_constant root_menu = "KEY_ROOT_MENU"
keyboard_constant rotate_display = "KEY_ROTATE_DISPLAY"
keyboard_constant rotate_lock_toggle = "KEY_ROTATE_LOCK_TOGGLE"
keyboard_constant s = "KEY_S"
keyboard_constant sat = "KEY_SAT"
keyboard_constant sat2 = "KEY_SAT2"
keyboard_constant save = "KEY_SAVE"
keyboard_constant scale = "KEY_SCALE"
keyboard_constant screensaver = "KEY_SCREENSAVER"
keyboard_constant scroll_down = "KEY_SCROLLDOWN"
keyboard_constant scroll_lock = "KEY_SCROLLLOCK"
keyboard_constant scroll_up = "KEY_SCROLLUP"
keyboard_constant search_key = "KEY_SEARCH"
keyboard_constant select = "KEY_SELECT"
keyboard_constant selective_screenshot = "KEY_SELECTIVE_SCREENSHOT"
keyboard_constant semicolon = "KEY_SEMICOLON"
keyboard_constant send = "KEY_SEND"
keyboard_constant send_file = "KEY_SENDFILE"
keyboard_constant setup = "KEY_SETUP"
keyboard_constant shop = "KEY_SHOP"
keyboard_constant shuffle = "KEY_SHUFFLE"
keyboard_constant slash = "KEY_SLASH"
keyboard_constant sleep = "KEY_SLEEP"
keyboard_constant slow = "KEY_SLOW"
keyboard_constant slow_reverse = "KEY_SLOWREVERSE"
keyboard_constant sound = "KEY_SOUND"
keyboard_constant space = "KEY_SPACE"
keyboard_constant spellcheck = "KEY_SPELLCHECK"
keyboard_constant sport = "KEY_SPORT"
keyboard_constant spreadsheet = "KEY_SPREADSHEET"
keyboard_constant stop = "KEY_STOP"
keyboard_constant stop_record = "KEY_STOP_RECORD"
keyboard_constant stop_cd = "KEY_STOPCD"
keyboard_constant subtitle = "KEY_SUBTITLE"
keyboard_constant suspend = "KEY_SUSPEND"
keyboard_constant switch_video_mode = "KEY_SWITCHVIDEOMODE"
keyboard_constant sys_rq = "KEY_SYSRQ"
keyboard_constant t = "KEY_T"
keyboard_constant tab = "KEY_TAB"
keyboard_constant tape = "KEY_TAPE"
keyboard_constant task_manager = "KEY_TASKMANAGER"
keyboard_constant teen = "KEY_TEEN"
keyboard_constant text = "KEY_TEXT"
keyboard_constant time = "KEY_TIME"
keyboard_constant title = "KEY_TITLE"
keyboard_constant touchpad_off = "KEY_TOUCHPAD_OFF"
keyboard_constant touchpad_on = "KEY_TOUCHPAD_ON"
keyboard_constant touchpad_toggle = "KEY_TOUCHPAD_TOGGLE"
keyboard_constant tuner = "KEY_TUNER"
keyboard_constant tv = "KEY_TV"
keyboard_constant tv2 = "KEY_TV2"
keyboard_constant twen = "KEY_TWEN"
keyboard_constant u = "KEY_U"
keyboard_constant undo = "KEY_UNDO"
keyboard_constant unknown = "KEY_UNKNOWN"
keyboard_constant unmute = "KEY_UNMUTE"
keyboard_constant up = "KEY_UP"
keyboard_constant uwb = "KEY_UWB"
keyboard_constant v = "KEY_V"
keyboard_constant vcr = "KEY_VCR"
keyboard_constant vcr2 = "KEY_VCR2"
keyboard_constant vendor = "KEY_VENDOR"
keyboard_constant video = "KEY_VIDEO"
keyboard_constant video_next = "KEY_VIDEO_NEXT"
keyboard_constant video_prev = "KEY_VIDEO_PREV"
keyboard_constant video_phone = "KEY_VIDEOPHONE"
keyboard_constant vod = "KEY_VOD"
keyboard_constant voice_command = "KEY_VOICECOMMAND"
keyboard_constant voice_mail = "KEY_VOICEMAIL"
keyboard_constant volume_down = "KEY_VOLUMEDOWN"
keyboard_constant volume_up = "KEY_VOLUMEUP"
keyboard_constant w = "KEY_W"
keyboard_constant wake_up = "KEY_WAKEUP"
keyboard_constant wlan = "KEY_WLAN"
keyboard_constant word_processor = "KEY_WORDPROCESSOR"
keyboard_constant wps_button = "KEY_WPS_BUTTON"
keyboard_constant wwan = "KEY_WWAN"
keyboard_constant www = "KEY_WWW"
keyboard_constant x = "KEY_X"
keyboard_constant xfer = "KEY_XFER"
keyboard_constant y = "KEY_Y"
keyboard_constant yellow = "KEY_YELLOW"
keyboard_constant yen = "KEY_YEN"
keyboard_constant z = "KEY_Z"
keyboard_constant zenkaku_hankaku = "KEY_ZENKAKUHANKAKU"
keyboard_constant zoom_in = "KEY_ZOOMIN"
keyboard_constant zoom_out = "KEY_ZOOMOUT"
keyboard_constant zoom_reset = "KEY_ZOOMRESET"
