-- ===== src/Input/Keyboard/Arms.antt =====
-- rkvm-master/rkvm-input/src/key/keyboard.rs: the arms of `from_raw`, in their order.
use nexus_kvm.Base.{String, List, [], ◌∷◌}
use nexus_kvm.Input.Keyboard.{
  Keyboard, a, ab, address_book, again, als_toggle, alt_erase, angle, apostrophe, appselect,
  archive, aspect_ratio, assistant, attendant_off, attendant_on, attendant_toggle, audio,
  audio_desc, aux, b, back, backslash, backspace, bass_boost, battery, blue, bluetooth, bookmarks,
  break, brightness_auto, brightness_cycle, brightness_max, brightness_min, brightness_toggle,
  brightness_down, brightness_up, brl_dot1, brl_dot10, brl_dot2, brl_dot3, brl_dot4, brl_dot5,
  brl_dot6, brl_dot7, brl_dot8, brl_dot9, button_config, c, calc, calendar, camera, camera_down,
  camera_focus, camera_left, camera_right, camera_up, camera_zoom_in, camera_zoom_out, cancel,
  caps_lock, cd, channel, channel_down, channel_up, chat, clear, close, close_cd, coffee, comma,
  compose, computer, config, connect, context_menu, controlpanel, copy, cut, cycle_windows, d,
  dashboard, data_key, database, del_eol, del_eos, del_line, delete, delete_file, digits, directory,
  display_off, documents, dollar, dot, down, dvd, e, edit, editor, eject_cd, eject_close_cd, email,
  end, enter, epg, equal, esc, euro, exit, f, f1, f10, f11, f12, f13, f14, f15, f16, f17, f18, f19,
  f2, f20, f21, f22, f23, f24, f3, f4, f5, f6, f7, f8, f9, fast_forward, fast_reverse, favorites,
  file, finance, find, first, fn, fn1, fn2, fn_b, fn_d, fn_e, fn_esc, fn_f, fn_f1, fn_f10, fn_f11,
  fn_f12, fn_f2, fn_f3, fn_f4, fn_f5, fn_f6, fn_f7, fn_f8, fn_f9, fn_s, forward, forward_mail,
  frameback, frame_forward, front, full_screen, g, games, goto, graphics_editor, grave, green, h,
  hangeul, hanja, help, henkan, hiragana, home, homepage, hp, i, images, info, ins_line, insert,
  iso, j, journal, k, katakana, katakana_hiragana, kbd_layout_next, kbd_lcd_menu1, kbd_lcd_menu2,
  kbd_lcd_menu3, kbd_lcd_menu4, kbd_lcd_menu5, kbd_illum_down, kbd_illum_toggle, kbd_illum_up,
  kbd_input_assist_accept, kbd_input_assist_cancel, kbd_input_assist_next,
  kbd_input_assist_nextgroup, kbd_input_assist_prev, kbd_input_assist_prevgroup, keyboard, kp0, kp1,
  kp2, kp3, kp4, kp5, kp6, kp7, kp8, kp9, kp_asterisk, kp_comma, kp_dot, kp_enter, kp_equal,
  kp_jp_comma, kp_left_paren, kp_minus, kp_plus, kp_plus_minus, kp_right_paren, kp_slash, l,
  language, last, left, left_down, left_up, left_alt, left_brace, left_ctrl, left_meta, left_shift,
  lights_toggle, line_feed, list, log_off, m, macro, macro1, macro10, macro11, macro12, macro13,
  macro14, macro15, macro16, macro17, macro18, macro19, macro2, macro20, macro21, macro22, macro23,
  macro24, macro25, macro26, macro27, macro28, macro29, macro3, macro30, macro4, macro5, macro6,
  macro7, macro8, macro9, macro_preset1, macro_preset2, macro_preset3, macro_preset_cycle,
  macro_record_start, macro_record_stop, mail, media, media_repeat, media_top_menu, memo, menu,
  messenger, mhp, mic_mute, minus, mode, move, mp3, ms_dos, muhenkan, mute, n, n0, n1, n102nd,
  n10_channels_down, n10_channels_up, n2, n3, n3d_mode, n4, n5, n6, n7, n8, n9, new, news, next,
  next_favorite, next_song, numeric0, numeric1, numeric11, numeric12, numeric2, numeric3, numeric4,
  numeric5, numeric6, numeric7, numeric8, numeric9, numeric_a, numeric_b, numeric_c, numeric_d,
  numeric_pound, numeric_star, num_lock, o, ok, onscreen_keyboard, open_key, option, p, page_down,
  page_up, paste, pause, pause_record, pause_cd, pc, phone, play, play_cd, player, play_pause,
  power, power2, presentation, previous, previous_song, print, privacy_screen_toggle, prog1, prog2,
  prog3, prog4, program, props, pvr, q, question, r, radio, record_key, red, redo, refresh, reply,
  reserved, restart, rewind, rf_kill, right, right_down, right_up, right_alt, right_brace,
  right_ctrl, right_meta, right_shift, ro, root_menu, rotate_display, rotate_lock_toggle, s, sat,
  sat2, save, scale, screensaver, scroll_down, scroll_lock, scroll_up, search_key, select,
  selective_screenshot, semicolon, send, send_file, setup, shop, shuffle, slash, sleep, slow,
  slow_reverse, sound, space, spellcheck, sport, spreadsheet, stop, stop_record, stop_cd, subtitle,
  suspend, switch_video_mode, sys_rq, t, tab, tape, task_manager, teen, text, time, title,
  touchpad_off, touchpad_on, touchpad_toggle, tuner, tv, tv2, twen, u, undo, unknown, unmute, up,
  uwb, v, vcr, vcr2, vendor, video, video_next, video_prev, video_phone, vod, voice_command,
  voice_mail, volume_down, volume_up, w, wake_up, wlan, word_processor, wps_button, wwan, www, x,
  xfer, y, yellow, yen, z, zenkaku_hankaku, zoom_in, zoom_out, zoom_reset,
}

unfoldable pub keyboard_arms : List (String × Keyboard)
keyboard_arms =
    ("KEY_A", a)
    ∷ ("KEY_AB", ab)
    ∷ ("KEY_ADDRESSBOOK", address_book)
    ∷ ("KEY_AGAIN", again)
    ∷ ("KEY_ALS_TOGGLE", als_toggle)
    ∷ ("KEY_ALTERASE", alt_erase)
    ∷ ("KEY_ANGLE", angle)
    ∷ ("KEY_APOSTROPHE", apostrophe)
    ∷ ("KEY_APPSELECT", appselect)
    ∷ ("KEY_ARCHIVE", archive)
    ∷ ("KEY_ASPECT_RATIO", aspect_ratio)
    ∷ ("KEY_ASSISTANT", assistant)
    ∷ ("KEY_ATTENDANT_OFF", attendant_off)
    ∷ ("KEY_ATTENDANT_ON", attendant_on)
    ∷ ("KEY_ATTENDANT_TOGGLE", attendant_toggle)
    ∷ ("KEY_AUDIO", audio)
    ∷ ("KEY_AUDIO_DESC", audio_desc)
    ∷ ("KEY_AUX", aux)
    ∷ ("KEY_B", b)
    ∷ ("KEY_BACK", back)
    ∷ ("KEY_BACKSLASH", backslash)
    ∷ ("KEY_BACKSPACE", backspace)
    ∷ ("KEY_BASSBOOST", bass_boost)
    ∷ ("KEY_BATTERY", battery)
    ∷ ("KEY_BLUE", blue)
    ∷ ("KEY_BLUETOOTH", bluetooth)
    ∷ ("KEY_BOOKMARKS", bookmarks)
    ∷ ("KEY_BREAK", break)
    ∷ ("KEY_BRIGHTNESS_AUTO", brightness_auto)
    ∷ ("KEY_BRIGHTNESS_CYCLE", brightness_cycle)
    ∷ ("KEY_BRIGHTNESS_MAX", brightness_max)
    ∷ ("KEY_BRIGHTNESS_MIN", brightness_min)
    ∷ ("KEY_BRIGHTNESS_TOGGLE", brightness_toggle)
    ∷ ("KEY_BRIGHTNESSDOWN", brightness_down)
    ∷ ("KEY_BRIGHTNESSUP", brightness_up)
    ∷ ("KEY_BRL_DOT1", brl_dot1)
    ∷ ("KEY_BRL_DOT10", brl_dot10)
    ∷ ("KEY_BRL_DOT2", brl_dot2)
    ∷ ("KEY_BRL_DOT3", brl_dot3)
    ∷ ("KEY_BRL_DOT4", brl_dot4)
    ∷ ("KEY_BRL_DOT5", brl_dot5)
    ∷ ("KEY_BRL_DOT6", brl_dot6)
    ∷ ("KEY_BRL_DOT7", brl_dot7)
    ∷ ("KEY_BRL_DOT8", brl_dot8)
    ∷ ("KEY_BRL_DOT9", brl_dot9)
    ∷ ("KEY_BUTTONCONFIG", button_config)
    ∷ ("KEY_C", c)
    ∷ ("KEY_CALC", calc)
    ∷ ("KEY_CALENDAR", calendar)
    ∷ ("KEY_CAMERA", camera)
    ∷ ("KEY_CAMERA_DOWN", camera_down)
    ∷ ("KEY_CAMERA_FOCUS", camera_focus)
    ∷ ("KEY_CAMERA_LEFT", camera_left)
    ∷ ("KEY_CAMERA_RIGHT", camera_right)
    ∷ ("KEY_CAMERA_UP", camera_up)
    ∷ ("KEY_CAMERA_ZOOMIN", camera_zoom_in)
    ∷ ("KEY_CAMERA_ZOOMOUT", camera_zoom_out)
    ∷ ("KEY_CANCEL", cancel)
    ∷ ("KEY_CAPSLOCK", caps_lock)
    ∷ ("KEY_CD", cd)
    ∷ ("KEY_CHANNEL", channel)
    ∷ ("KEY_CHANNELDOWN", channel_down)
    ∷ ("KEY_CHANNELUP", channel_up)
    ∷ ("KEY_CHAT", chat)
    ∷ ("KEY_CLEAR", clear)
    ∷ ("KEY_CLOSE", close)
    ∷ ("KEY_CLOSECD", close_cd)
    ∷ ("KEY_COFFEE", coffee)
    ∷ ("KEY_COMMA", comma)
    ∷ ("KEY_COMPOSE", compose)
    ∷ ("KEY_COMPUTER", computer)
    ∷ ("KEY_CONFIG", config)
    ∷ ("KEY_CONNECT", connect)
    ∷ ("KEY_CONTEXT_MENU", context_menu)
    ∷ ("KEY_CONTROLPANEL", controlpanel)
    ∷ ("KEY_COPY", copy)
    ∷ ("KEY_CUT", cut)
    ∷ ("KEY_CYCLEWINDOWS", cycle_windows)
    ∷ ("KEY_D", d)
    ∷ ("KEY_DASHBOARD", dashboard)
    ∷ ("KEY_DATA", data_key)
    ∷ ("KEY_DATABASE", database)
    ∷ ("KEY_DEL_EOL", del_eol)
    ∷ ("KEY_DEL_EOS", del_eos)
    ∷ ("KEY_DEL_LINE", del_line)
    ∷ ("KEY_DELETE", delete)
    ∷ ("KEY_DELETEFILE", delete_file)
    ∷ ("KEY_DIGITS", digits)
    ∷ ("KEY_DIRECTORY", directory)
    ∷ ("KEY_DISPLAY_OFF", display_off)
    ∷ ("KEY_DOCUMENTS", documents)
    ∷ ("KEY_DOLLAR", dollar)
    ∷ ("KEY_DOT", dot)
    ∷ ("KEY_DOWN", down)
    ∷ ("KEY_DVD", dvd)
    ∷ ("KEY_E", e)
    ∷ ("KEY_EDIT", edit)
    ∷ ("KEY_EDITOR", editor)
    ∷ ("KEY_EJECTCD", eject_cd)
    ∷ ("KEY_EJECTCLOSECD", eject_close_cd)
    ∷ ("KEY_EMAIL", email)
    ∷ ("KEY_END", end)
    ∷ ("KEY_ENTER", enter)
    ∷ ("KEY_EPG", epg)
    ∷ ("KEY_EQUAL", equal)
    ∷ ("KEY_ESC", esc)
    ∷ ("KEY_EURO", euro)
    ∷ ("KEY_EXIT", exit)
    ∷ ("KEY_F", f)
    ∷ ("KEY_F1", f1)
    ∷ ("KEY_F10", f10)
    ∷ ("KEY_F11", f11)
    ∷ ("KEY_F12", f12)
    ∷ ("KEY_F13", f13)
    ∷ ("KEY_F14", f14)
    ∷ ("KEY_F15", f15)
    ∷ ("KEY_F16", f16)
    ∷ ("KEY_F17", f17)
    ∷ ("KEY_F18", f18)
    ∷ ("KEY_F19", f19)
    ∷ ("KEY_F2", f2)
    ∷ ("KEY_F20", f20)
    ∷ ("KEY_F21", f21)
    ∷ ("KEY_F22", f22)
    ∷ ("KEY_F23", f23)
    ∷ ("KEY_F24", f24)
    ∷ ("KEY_F3", f3)
    ∷ ("KEY_F4", f4)
    ∷ ("KEY_F5", f5)
    ∷ ("KEY_F6", f6)
    ∷ ("KEY_F7", f7)
    ∷ ("KEY_F8", f8)
    ∷ ("KEY_F9", f9)
    ∷ ("KEY_FASTFORWARD", fast_forward)
    ∷ ("KEY_FASTREVERSE", fast_reverse)
    ∷ ("KEY_FAVORITES", favorites)
    ∷ ("KEY_FILE", file)
    ∷ ("KEY_FINANCE", finance)
    ∷ ("KEY_FIND", find)
    ∷ ("KEY_FIRST", first)
    ∷ ("KEY_FN", fn)
    ∷ ("KEY_FN_1", fn1)
    ∷ ("KEY_FN_2", fn2)
    ∷ ("KEY_FN_B", fn_b)
    ∷ ("KEY_FN_D", fn_d)
    ∷ ("KEY_FN_E", fn_e)
    ∷ ("KEY_FN_ESC", fn_esc)
    ∷ ("KEY_FN_F", fn_f)
    ∷ ("KEY_FN_F1", fn_f1)
    ∷ ("KEY_FN_F10", fn_f10)
    ∷ ("KEY_FN_F11", fn_f11)
    ∷ ("KEY_FN_F12", fn_f12)
    ∷ ("KEY_FN_F2", fn_f2)
    ∷ ("KEY_FN_F3", fn_f3)
    ∷ ("KEY_FN_F4", fn_f4)
    ∷ ("KEY_FN_F5", fn_f5)
    ∷ ("KEY_FN_F6", fn_f6)
    ∷ ("KEY_FN_F7", fn_f7)
    ∷ ("KEY_FN_F8", fn_f8)
    ∷ ("KEY_FN_F9", fn_f9)
    ∷ ("KEY_FN_S", fn_s)
    ∷ ("KEY_FORWARD", forward)
    ∷ ("KEY_FORWARDMAIL", forward_mail)
    ∷ ("KEY_FRAMEBACK", frameback)
    ∷ ("KEY_FRAMEFORWARD", frame_forward)
    ∷ ("KEY_FRONT", front)
    ∷ ("KEY_FULL_SCREEN", full_screen)
    ∷ ("KEY_G", g)
    ∷ ("KEY_GAMES", games)
    ∷ ("KEY_GOTO", goto)
    ∷ ("KEY_GRAPHICSEDITOR", graphics_editor)
    ∷ ("KEY_GRAVE", grave)
    ∷ ("KEY_GREEN", green)
    ∷ ("KEY_H", h)
    ∷ ("KEY_HANGEUL", hangeul)
    ∷ ("KEY_HANJA", hanja)
    ∷ ("KEY_HELP", help)
    ∷ ("KEY_HENKAN", henkan)
    ∷ ("KEY_HIRAGANA", hiragana)
    ∷ ("KEY_HOME", home)
    ∷ ("KEY_HOMEPAGE", homepage)
    ∷ ("KEY_HP", hp)
    ∷ ("KEY_I", i)
    ∷ ("KEY_IMAGES", images)
    ∷ ("KEY_INFO", info)
    ∷ ("KEY_INS_LINE", ins_line)
    ∷ ("KEY_INSERT", insert)
    ∷ ("KEY_ISO", iso)
    ∷ ("KEY_J", j)
    ∷ ("KEY_JOURNAL", journal)
    ∷ ("KEY_K", k)
    ∷ ("KEY_KATAKANA", katakana)
    ∷ ("KEY_KATAKANAHIRAGANA", katakana_hiragana)
    ∷ ("KEY_KBD_LAYOUT_NEXT", kbd_layout_next)
    ∷ ("KEY_KBD_LCD_MENU1", kbd_lcd_menu1)
    ∷ ("KEY_KBD_LCD_MENU2", kbd_lcd_menu2)
    ∷ ("KEY_KBD_LCD_MENU3", kbd_lcd_menu3)
    ∷ ("KEY_KBD_LCD_MENU4", kbd_lcd_menu4)
    ∷ ("KEY_KBD_LCD_MENU5", kbd_lcd_menu5)
    ∷ ("KEY_KBDILLUMDOWN", kbd_illum_down)
    ∷ ("KEY_KBDILLUMTOGGLE", kbd_illum_toggle)
    ∷ ("KEY_KBDILLUMUP", kbd_illum_up)
    ∷ ("KEY_KBDINPUTASSIST_ACCEPT", kbd_input_assist_accept)
    ∷ ("KEY_KBDINPUTASSIST_CANCEL", kbd_input_assist_cancel)
    ∷ ("KEY_KBDINPUTASSIST_NEXT", kbd_input_assist_next)
    ∷ ("KEY_KBDINPUTASSIST_NEXTGROUP", kbd_input_assist_nextgroup)
    ∷ ("KEY_KBDINPUTASSIST_PREV", kbd_input_assist_prev)
    ∷ ("KEY_KBDINPUTASSIST_PREVGROUP", kbd_input_assist_prevgroup)
    ∷ ("KEY_KEYBOARD", keyboard)
    ∷ ("KEY_KP0", kp0)
    ∷ ("KEY_KP1", kp1)
    ∷ ("KEY_KP2", kp2)
    ∷ ("KEY_KP3", kp3)
    ∷ ("KEY_KP4", kp4)
    ∷ ("KEY_KP5", kp5)
    ∷ ("KEY_KP6", kp6)
    ∷ ("KEY_KP7", kp7)
    ∷ ("KEY_KP8", kp8)
    ∷ ("KEY_KP9", kp9)
    ∷ ("KEY_KPASTERISK", kp_asterisk)
    ∷ ("KEY_KPCOMMA", kp_comma)
    ∷ ("KEY_KPDOT", kp_dot)
    ∷ ("KEY_KPENTER", kp_enter)
    ∷ ("KEY_KPEQUAL", kp_equal)
    ∷ ("KEY_KPJPCOMMA", kp_jp_comma)
    ∷ ("KEY_KPLEFTPAREN", kp_left_paren)
    ∷ ("KEY_KPMINUS", kp_minus)
    ∷ ("KEY_KPPLUS", kp_plus)
    ∷ ("KEY_KPPLUSMINUS", kp_plus_minus)
    ∷ ("KEY_KPRIGHTPAREN", kp_right_paren)
    ∷ ("KEY_KPSLASH", kp_slash)
    ∷ ("KEY_L", l)
    ∷ ("KEY_LANGUAGE", language)
    ∷ ("KEY_LAST", last)
    ∷ ("KEY_LEFT", left)
    ∷ ("KEY_LEFT_DOWN", left_down)
    ∷ ("KEY_LEFT_UP", left_up)
    ∷ ("KEY_LEFTALT", left_alt)
    ∷ ("KEY_LEFTBRACE", left_brace)
    ∷ ("KEY_LEFTCTRL", left_ctrl)
    ∷ ("KEY_LEFTMETA", left_meta)
    ∷ ("KEY_LEFTSHIFT", left_shift)
    ∷ ("KEY_LIGHTS_TOGGLE", lights_toggle)
    ∷ ("KEY_LINEFEED", line_feed)
    ∷ ("KEY_LIST", list)
    ∷ ("KEY_LOGOFF", log_off)
    ∷ ("KEY_M", m)
    ∷ ("KEY_MACRO", macro)
    ∷ ("KEY_MACRO1", macro1)
    ∷ ("KEY_MACRO10", macro10)
    ∷ ("KEY_MACRO11", macro11)
    ∷ ("KEY_MACRO12", macro12)
    ∷ ("KEY_MACRO13", macro13)
    ∷ ("KEY_MACRO14", macro14)
    ∷ ("KEY_MACRO15", macro15)
    ∷ ("KEY_MACRO16", macro16)
    ∷ ("KEY_MACRO17", macro17)
    ∷ ("KEY_MACRO18", macro18)
    ∷ ("KEY_MACRO19", macro19)
    ∷ ("KEY_MACRO2", macro2)
    ∷ ("KEY_MACRO20", macro20)
    ∷ ("KEY_MACRO21", macro21)
    ∷ ("KEY_MACRO22", macro22)
    ∷ ("KEY_MACRO23", macro23)
    ∷ ("KEY_MACRO24", macro24)
    ∷ ("KEY_MACRO25", macro25)
    ∷ ("KEY_MACRO26", macro26)
    ∷ ("KEY_MACRO27", macro27)
    ∷ ("KEY_MACRO28", macro28)
    ∷ ("KEY_MACRO29", macro29)
    ∷ ("KEY_MACRO3", macro3)
    ∷ ("KEY_MACRO30", macro30)
    ∷ ("KEY_MACRO4", macro4)
    ∷ ("KEY_MACRO5", macro5)
    ∷ ("KEY_MACRO6", macro6)
    ∷ ("KEY_MACRO7", macro7)
    ∷ ("KEY_MACRO8", macro8)
    ∷ ("KEY_MACRO9", macro9)
    ∷ ("KEY_MACRO_PRESET1", macro_preset1)
    ∷ ("KEY_MACRO_PRESET2", macro_preset2)
    ∷ ("KEY_MACRO_PRESET3", macro_preset3)
    ∷ ("KEY_MACRO_PRESET_CYCLE", macro_preset_cycle)
    ∷ ("KEY_MACRO_RECORD_START", macro_record_start)
    ∷ ("KEY_MACRO_RECORD_STOP", macro_record_stop)
    ∷ ("KEY_MAIL", mail)
    ∷ ("KEY_MEDIA", media)
    ∷ ("KEY_MEDIA_REPEAT", media_repeat)
    ∷ ("KEY_MEDIA_TOP_MENU", media_top_menu)
    ∷ ("KEY_MEMO", memo)
    ∷ ("KEY_MENU", menu)
    ∷ ("KEY_MESSENGER", messenger)
    ∷ ("KEY_MHP", mhp)
    ∷ ("KEY_MICMUTE", mic_mute)
    ∷ ("KEY_MINUS", minus)
    ∷ ("KEY_MODE", mode)
    ∷ ("KEY_MOVE", move)
    ∷ ("KEY_MP3", mp3)
    ∷ ("KEY_MSDOS", ms_dos)
    ∷ ("KEY_MUHENKAN", muhenkan)
    ∷ ("KEY_MUTE", mute)
    ∷ ("KEY_N", n)
    ∷ ("KEY_0", n0)
    ∷ ("KEY_1", n1)
    ∷ ("KEY_102ND", n102nd)
    ∷ ("KEY_10CHANNELSDOWN", n10_channels_down)
    ∷ ("KEY_10CHANNELSUP", n10_channels_up)
    ∷ ("KEY_2", n2)
    ∷ ("KEY_3", n3)
    ∷ ("KEY_3D_MODE", n3d_mode)
    ∷ ("KEY_4", n4)
    ∷ ("KEY_5", n5)
    ∷ ("KEY_6", n6)
    ∷ ("KEY_7", n7)
    ∷ ("KEY_8", n8)
    ∷ ("KEY_9", n9)
    ∷ ("KEY_NEW", new)
    ∷ ("KEY_NEWS", news)
    ∷ ("KEY_NEXT", next)
    ∷ ("KEY_NEXT_FAVORITE", next_favorite)
    ∷ ("KEY_NEXTSONG", next_song)
    ∷ ("KEY_NUMERIC_0", numeric0)
    ∷ ("KEY_NUMERIC_1", numeric1)
    ∷ ("KEY_NUMERIC_11", numeric11)
    ∷ ("KEY_NUMERIC_12", numeric12)
    ∷ ("KEY_NUMERIC_2", numeric2)
    ∷ ("KEY_NUMERIC_3", numeric3)
    ∷ ("KEY_NUMERIC_4", numeric4)
    ∷ ("KEY_NUMERIC_5", numeric5)
    ∷ ("KEY_NUMERIC_6", numeric6)
    ∷ ("KEY_NUMERIC_7", numeric7)
    ∷ ("KEY_NUMERIC_8", numeric8)
    ∷ ("KEY_NUMERIC_9", numeric9)
    ∷ ("KEY_NUMERIC_A", numeric_a)
    ∷ ("KEY_NUMERIC_B", numeric_b)
    ∷ ("KEY_NUMERIC_C", numeric_c)
    ∷ ("KEY_NUMERIC_D", numeric_d)
    ∷ ("KEY_NUMERIC_POUND", numeric_pound)
    ∷ ("KEY_NUMERIC_STAR", numeric_star)
    ∷ ("KEY_NUMLOCK", num_lock)
    ∷ ("KEY_O", o)
    ∷ ("KEY_OK", ok)
    ∷ ("KEY_ONSCREEN_KEYBOARD", onscreen_keyboard)
    ∷ ("KEY_OPEN", open_key)
    ∷ ("KEY_OPTION", option)
    ∷ ("KEY_P", p)
    ∷ ("KEY_PAGEDOWN", page_down)
    ∷ ("KEY_PAGEUP", page_up)
    ∷ ("KEY_PASTE", paste)
    ∷ ("KEY_PAUSE", pause)
    ∷ ("KEY_PAUSE_RECORD", pause_record)
    ∷ ("KEY_PAUSECD", pause_cd)
    ∷ ("KEY_PC", pc)
    ∷ ("KEY_PHONE", phone)
    ∷ ("KEY_PLAY", play)
    ∷ ("KEY_PLAYCD", play_cd)
    ∷ ("KEY_PLAYER", player)
    ∷ ("KEY_PLAYPAUSE", play_pause)
    ∷ ("KEY_POWER", power)
    ∷ ("KEY_POWER2", power2)
    ∷ ("KEY_PRESENTATION", presentation)
    ∷ ("KEY_PREVIOUS", previous)
    ∷ ("KEY_PREVIOUSSONG", previous_song)
    ∷ ("KEY_PRINT", print)
    ∷ ("KEY_PRIVACY_SCREEN_TOGGLE", privacy_screen_toggle)
    ∷ ("KEY_PROG1", prog1)
    ∷ ("KEY_PROG2", prog2)
    ∷ ("KEY_PROG3", prog3)
    ∷ ("KEY_PROG4", prog4)
    ∷ ("KEY_PROGRAM", program)
    ∷ ("KEY_PROPS", props)
    ∷ ("KEY_PVR", pvr)
    ∷ ("KEY_Q", q)
    ∷ ("KEY_QUESTION", question)
    ∷ ("KEY_R", r)
    ∷ ("KEY_RADIO", radio)
    ∷ ("KEY_RECORD", record_key)
    ∷ ("KEY_RED", red)
    ∷ ("KEY_REDO", redo)
    ∷ ("KEY_REFRESH", refresh)
    ∷ ("KEY_REPLY", reply)
    ∷ ("KEY_RESERVED", reserved)
    ∷ ("KEY_RESTART", restart)
    ∷ ("KEY_REWIND", rewind)
    ∷ ("KEY_RFKILL", rf_kill)
    ∷ ("KEY_RIGHT", right)
    ∷ ("KEY_RIGHT_DOWN", right_down)
    ∷ ("KEY_RIGHT_UP", right_up)
    ∷ ("KEY_RIGHTALT", right_alt)
    ∷ ("KEY_RIGHTBRACE", right_brace)
    ∷ ("KEY_RIGHTCTRL", right_ctrl)
    ∷ ("KEY_RIGHTMETA", right_meta)
    ∷ ("KEY_RIGHTSHIFT", right_shift)
    ∷ ("KEY_RO", ro)
    ∷ ("KEY_ROOT_MENU", root_menu)
    ∷ ("KEY_ROTATE_DISPLAY", rotate_display)
    ∷ ("KEY_ROTATE_LOCK_TOGGLE", rotate_lock_toggle)
    ∷ ("KEY_S", s)
    ∷ ("KEY_SAT", sat)
    ∷ ("KEY_SAT2", sat2)
    ∷ ("KEY_SAVE", save)
    ∷ ("KEY_SCALE", scale)
    ∷ ("KEY_SCREENSAVER", screensaver)
    ∷ ("KEY_SCROLLDOWN", scroll_down)
    ∷ ("KEY_SCROLLLOCK", scroll_lock)
    ∷ ("KEY_SCROLLUP", scroll_up)
    ∷ ("KEY_SEARCH", search_key)
    ∷ ("KEY_SELECT", select)
    ∷ ("KEY_SELECTIVE_SCREENSHOT", selective_screenshot)
    ∷ ("KEY_SEMICOLON", semicolon)
    ∷ ("KEY_SEND", send)
    ∷ ("KEY_SENDFILE", send_file)
    ∷ ("KEY_SETUP", setup)
    ∷ ("KEY_SHOP", shop)
    ∷ ("KEY_SHUFFLE", shuffle)
    ∷ ("KEY_SLASH", slash)
    ∷ ("KEY_SLEEP", sleep)
    ∷ ("KEY_SLOW", slow)
    ∷ ("KEY_SLOWREVERSE", slow_reverse)
    ∷ ("KEY_SOUND", sound)
    ∷ ("KEY_SPACE", space)
    ∷ ("KEY_SPELLCHECK", spellcheck)
    ∷ ("KEY_SPORT", sport)
    ∷ ("KEY_SPREADSHEET", spreadsheet)
    ∷ ("KEY_STOP", stop)
    ∷ ("KEY_STOP_RECORD", stop_record)
    ∷ ("KEY_STOPCD", stop_cd)
    ∷ ("KEY_SUBTITLE", subtitle)
    ∷ ("KEY_SUSPEND", suspend)
    ∷ ("KEY_SWITCHVIDEOMODE", switch_video_mode)
    ∷ ("KEY_SYSRQ", sys_rq)
    ∷ ("KEY_T", t)
    ∷ ("KEY_TAB", tab)
    ∷ ("KEY_TAPE", tape)
    ∷ ("KEY_TASKMANAGER", task_manager)
    ∷ ("KEY_TEEN", teen)
    ∷ ("KEY_TEXT", text)
    ∷ ("KEY_TIME", time)
    ∷ ("KEY_TITLE", title)
    ∷ ("KEY_TOUCHPAD_OFF", touchpad_off)
    ∷ ("KEY_TOUCHPAD_ON", touchpad_on)
    ∷ ("KEY_TOUCHPAD_TOGGLE", touchpad_toggle)
    ∷ ("KEY_TUNER", tuner)
    ∷ ("KEY_TV", tv)
    ∷ ("KEY_TV2", tv2)
    ∷ ("KEY_TWEN", twen)
    ∷ ("KEY_U", u)
    ∷ ("KEY_UNDO", undo)
    ∷ ("KEY_UNKNOWN", unknown)
    ∷ ("KEY_UNMUTE", unmute)
    ∷ ("KEY_UP", up)
    ∷ ("KEY_UWB", uwb)
    ∷ ("KEY_V", v)
    ∷ ("KEY_VCR", vcr)
    ∷ ("KEY_VCR2", vcr2)
    ∷ ("KEY_VENDOR", vendor)
    ∷ ("KEY_VIDEO", video)
    ∷ ("KEY_VIDEO_NEXT", video_next)
    ∷ ("KEY_VIDEO_PREV", video_prev)
    ∷ ("KEY_VIDEOPHONE", video_phone)
    ∷ ("KEY_VOD", vod)
    ∷ ("KEY_VOICECOMMAND", voice_command)
    ∷ ("KEY_VOICEMAIL", voice_mail)
    ∷ ("KEY_VOLUMEDOWN", volume_down)
    ∷ ("KEY_VOLUMEUP", volume_up)
    ∷ ("KEY_W", w)
    ∷ ("KEY_WAKEUP", wake_up)
    ∷ ("KEY_WLAN", wlan)
    ∷ ("KEY_WORDPROCESSOR", word_processor)
    ∷ ("KEY_WPS_BUTTON", wps_button)
    ∷ ("KEY_WWAN", wwan)
    ∷ ("KEY_WWW", www)
    ∷ ("KEY_X", x)
    ∷ ("KEY_XFER", xfer)
    ∷ ("KEY_Y", y)
    ∷ ("KEY_YELLOW", yellow)
    ∷ ("KEY_YEN", yen)
    ∷ ("KEY_Z", z)
    ∷ ("KEY_ZENKAKUHANKAKU", zenkaku_hankaku)
    ∷ ("KEY_ZOOMIN", zoom_in)
    ∷ ("KEY_ZOOMOUT", zoom_out)
    ∷ ("KEY_ZOOMRESET", zoom_reset)
    ∷ []
